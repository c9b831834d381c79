-- ===== src/Tests/Vma.antt =====
-- The areas of src/mm/vma.cpp on concrete lists.
use uni_os.Prelude.{◌≡◌, refl, true, some, List, [], ◌∷◌, arith}
use uni_os.Memory.Vma.{
  Vma, text, stack, heap, sentinel, new_vma, insert_at, vma_add, vma_remove, vma_unmap, vma_clone,
}
use uni_os.Memory.Vma.Order.{IsOrdered, vma_remove-IsOrdered}
use uni_os.Memory.Vma.Find.{IsAdded, vma_add-IsAdded}
use uni_os.Memory.Vma.Unmap.{attributes_at, attributes_at-vma_unmap}

abbrev code_vma : Vma
code_vma = new_vma 4096 8192 5 text

abbrev stack_vma : Vma
stack_vma = new_vma 16384 32768 7 stack

abbrev areas : List Vma
areas = sentinel ∷ code_vma ∷ stack_vma ∷ []

-- Two areas added to an empty list stand behind the sentinel.
built :
    let l = (vma_add true true [] 16384 32768 7 stack).1 in
    (vma_add true true l 4096 8192 5 text).1 ≡ areas
unfolding vma_add insert_at
built = refl

-- A hole in the stack splits it.
split :
    vma_unmap (true ∷ []) areas 20480 24576
    ≡ (true, sentinel ∷ code_vma ∷ new_vma 16384 20480 7 stack ∷ new_vma 24576 32768 7 stack ∷ [])
unfolding vma_unmap
split = refl

removed : vma_remove areas 4096 8192 ≡ sentinel ∷ stack_vma ∷ []
unfolding vma_remove
removed = refl

cloned : vma_clone (true ∷ true ∷ true ∷ []) areas ≡ some areas
unfolding vma_clone
cloned = refl

vma_remove-IsOrdered_example : IsOrdered 0 (vma_remove areas 4096 8192)
vma_remove-IsOrdered_example = vma_remove-IsOrdered 0 areas 4096 8192 (omega arith)

vma_add-IsAdded_example :
    IsAdded (new_vma 8192 12288 3 heap) areas (vma_add true true areas 8192 12288 3 heap)
vma_add-IsAdded_example = vma_add-IsAdded areas 8192 12288 3 heap (omega arith)

attributes_at-vma_unmap_example :
    attributes_at (vma_unmap (true ∷ []) areas 20480 24576).1 24576 ≡ attributes_at areas 24576
attributes_at-vma_unmap_example =
    attributes_at-vma_unmap (true ∷ []) areas 20480 24576 24576 (unfold vma_unmap in refl)
