-- ===== src/Fs/Memfd/Loops.antt =====
-- src/kernel/fs/memfd.cpp: what the loops over the pages read and write.
use uni_os.Prelude.{
  ℕ, zero, suc, ◌+◌, ◌-◌, ◌*◌, ◌/◌, ◌%◌, ◌^◌, ◌<◌, ◌≤◌, ◌≡◌, inl, inr, refl, sym, ap, ◌∙◌, arith,
  ◌&&◌, Bool-cases, List, ltb, leb, ◌==◌, if◌then◌else◌, length, length-set, get_or, set,
  get_or-set_self, get_or-set_ne,
}
use uni_os.Fs.Memfd.{Page, zero_page, page_bytes, min_chunk, read_loop, copy_to_page, write_loop}
use uni_os.Fs.Memfd.Pages.{byte_of, page_bytes-congr, page_bytes-append}

-- A chunk that stays in its page.
chunk_bytes :
    (pages : List Page) (curr n : ℕ)
    → curr % 4096 + n ≤ 4096
    → page_bytes (get_or pages (curr / 4096) zero_page) (curr % 4096) n
      ≡ page_bytes (byte_of pages) curr n
chunk_bytes pages curr n fits =
    page_bytes-congr (get_or pages (curr / 4096) zero_page) (byte_of pages) (curr % 4096) curr n
      (λ k lt.
        let q : (curr + k) / 4096 ≡ curr / 4096 = omega arith in
        let r : (curr + k) % 4096 ≡ curr % 4096 + k = omega arith in rw (q, r) refl)

pub read_loop-page_bytes :
    (fuel : ℕ) (pages : List Page) (offset to_read read_bytes : ℕ)
    → read_bytes ≤ to_read
    → to_read ≤ read_bytes + fuel
    → offset + to_read < 2 ^ 64
    → read_loop fuel pages offset to_read read_bytes
      ≡ page_bytes (byte_of pages) (offset + read_bytes) (to_read - read_bytes)
unfolding read_loop
read_loop-page_bytes zero pages offset to_read r le enough lt =
    let z : to_read - r ≡ 0 = omega arith in rw z (unfold page_bytes in refl)
read_loop-page_bytes (suc fuel) pages offset to_read r le enough lt =
    elim (Bool-cases (ltb r to_read)) [
      | inr done ↦
          let z : to_read - r ≡ 0 = ground arith in rw (done, z) (unfold page_bytes in refl)
      | inl more ↦
          let curr = offset + r in
          let nowrap : (offset + r) % 2 ^ 64 ≡ offset + r = omega arith in
          let chunk = min_chunk (curr % 4096) (to_read - r) in
          let small : curr % 4096 + chunk ≤ 4096 = ground arith in
          let some_bytes : 0 < chunk = ground arith in
          let inside : r + chunk ≤ to_read = ground arith in
          let rest =
            read_loop-page_bytes fuel pages offset to_read (r + chunk) inside (omega arith) lt in
          let here = chunk_bytes pages curr chunk small in
          let next : offset + (r + chunk) ≡ curr + chunk = omega arith in
          let total : chunk + (to_read - (r + chunk)) ≡ to_read - r = omega arith in
          let all = page_bytes-append (byte_of pages) curr chunk (to_read - (r + chunk)) in
          rw (more, nowrap, here, rest, next) (sym all ∙ ap (page_bytes (byte_of pages) curr) total)
    ]

-- The bytes of `buf` from the place `from` on are in the file, which starts at `offset`.
abbrev pub overlay : List ℕ → (offset from : ℕ) → (ℕ → ℕ) → ℕ → ℕ
overlay buf offset from f a =
    if leb (offset + from) a && ltb a (offset + length buf) then get_or buf (a - offset) 0 else f a

byte_of-set :
    (pages : List Page) (buf : List ℕ) (curr w n a : ℕ)
    → curr < 4096 * length pages
    → curr % 4096 + n ≤ 4096
    → byte_of
        (set pages
          (curr / 4096)
          (copy_to_page (curr % 4096) w n buf (get_or pages (curr / 4096) zero_page)))
        a
      ≡ (if leb curr a && ltb a (curr + n) then get_or buf (w + (a - curr)) 0 else byte_of pages a)
byte_of-set pages buf curr w n a inside fits =
    let page = copy_to_page (curr % 4096) w n buf (get_or pages (curr / 4096) zero_page) in
    let here = get_or-set_self pages (curr / 4096) page zero_page (omega arith) in
    elim (Bool-cases (curr / 4096 == a / 4096)) [
      | inl same ↦
          let e : a / 4096 ≡ curr / 4096 = ground arith in
          let d : a % 4096 - curr % 4096 ≡ a - curr = omega arith in rw (e, here, d) (ground arith)
      | inr other ↦
          let e = get_or-set_ne pages (curr / 4096) (a / 4096) page zero_page (ground arith) in
          rw e (ground arith)
    ]

overlay_step :
    (buf : List ℕ) (offset w n : ℕ) (f g : ℕ → ℕ) (a : ℕ)
    → w + n ≤ length buf
    → g a ≡ (
        if leb (offset + w) a && ltb a (offset + w + n)
        then get_or buf (w + (a - (offset + w))) 0
        else f a)
    → overlay buf offset (w + n) g a ≡ overlay buf offset w f a
overlay_step buf offset w n f g a inside e = elim (Bool-cases (ltb a (offset + w))) [
  | inl before ↦ ground (arith, e)
  | inr behind ↦
      let d : w + (a - (offset + w)) ≡ a - offset = ground arith in
      let e' : g a ≡ (
          if leb (offset + w) a && ltb a (offset + w + n) then get_or buf (a - offset) 0 else f a) =
        rw⁻¹ d e in
      ground (arith, e')
]

pub write_loop-overlay :
    (fuel : ℕ) (buf : List ℕ) (offset w : ℕ) (pages : List Page)
    → w ≤ length buf
    → length buf ≤ w + fuel
    → offset + length buf ≤ 4096 * length pages
    → offset + length buf < 2 ^ 64
    → let pages' = write_loop fuel buf offset w pages in
      (length pages' ≡ length pages)
      × ((a : ℕ) → byte_of pages' a ≡ overlay buf offset w (byte_of pages) a)
unfolding write_loop
write_loop-overlay zero buf offset w pages le enough room lt = (refl, λ a. ground arith)
write_loop-overlay (suc fuel) buf offset w pages le enough room lt =
    elim (Bool-cases (ltb w (length buf))) [
      | inr done ↦ rw done (refl, λ a. ground arith)
      | inl more ↦
          let curr = offset + w in
          let nowrap : (offset + w) % 2 ^ 64 ≡ offset + w = omega arith in
          let chunk = min_chunk (curr % 4096) (length buf - w) in
          let small : curr % 4096 + chunk ≤ 4096 = ground arith in
          let some_bytes : 0 < chunk = ground arith in
          let inside : w + chunk ≤ length buf = ground arith in
          let page =
            copy_to_page (curr % 4096) w chunk buf (get_or pages (curr / 4096) zero_page) in
          let pages' = set pages (curr / 4096) page in
          let same = length-set pages (curr / 4096) page in
          let (l, bytes) =
            write_loop-overlay fuel buf offset (w + chunk) pages' inside (omega arith)
              (omega (arith, same)) lt in
          rw (more, nowrap)
            (
              cc (l, same),
              λ a.
                  bytes a
                  ∙ overlay_step buf offset w chunk (byte_of pages) (byte_of pages') a inside
                      (byte_of-set pages buf curr w chunk a (ground arith) small),
            )
    ]
