-- ===== src/Tests.antt =====
-- Runs of the models on concrete inputs, and the theorems at inputs that meet their hypotheses.
mod Vma
mod Pipe
mod Net
mod Bitmap
mod Pmm
mod Arp
mod Events
mod Partition
mod Heap
mod Icmp
mod Dhcp
mod Wm
mod Elf
mod Memfd
mod Mutex
mod Dns
