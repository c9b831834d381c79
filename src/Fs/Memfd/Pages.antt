-- ===== src/Fs/Memfd/Pages.antt =====
-- src/kernel/fs/memfd.cpp: the pages as one array of bytes.
use uni_os.Prelude.{
  ℕ, zero, suc, ◌+◌, ◌/◌, ◌%◌, ◌<◌, ◌≡◌, refl, ap, ◌∙◌, arith, List, [], ◌∷◌, ◌++◌, leb,
  if◌then◌else◌, length, length-append, get_or,
}
use uni_os.Fs.Memfd.{Page, zero_page, page_bytes, add_pages}

-- The byte at a place of the file, zero where there is no page.
abbrev pub byte_of : List Page → ℕ → ℕ
byte_of pages a = get_or pages (a / 4096) zero_page (a % 4096)

get_or-add :
    (pages : List Page) (k : ℕ)
    → get_or (pages ++ zero_page ∷ []) k zero_page ≡ get_or pages k zero_page
get_or-add [] zero = refl
get_or-add [] (suc k) = refl
get_or-add (p ∷ pages) zero = refl
get_or-add (p ∷ pages) (suc k) = get_or-add pages k

pub byte_of-add_pages :
    (missing frames : ℕ) (pages : List Page) (a : ℕ)
    → byte_of (add_pages missing frames pages).1 a ≡ byte_of pages a
unfolding add_pages
byte_of-add_pages zero frames pages a = refl
byte_of-add_pages (suc missing) zero pages a = refl
byte_of-add_pages (suc missing) (suc frames) pages a =
    byte_of-add_pages missing frames (pages ++ zero_page ∷ []) a
    ∙ ap (λ p. p (a % 4096)) (get_or-add pages (a / 4096))

-- As many pages are added as there are frames for.
pub length-add_pages :
    (missing frames : ℕ) (pages : List Page)
    → let (done, pages') = add_pages missing frames pages in
      (done ≡ leb missing frames)
      × (length pages' ≡ length pages + (if done then missing else frames))
unfolding add_pages
length-add_pages zero frames pages = ground arith
length-add_pages (suc missing) zero pages = ground arith
length-add_pages (suc missing) (suc frames) pages = ground (
  arith,
  length-add_pages missing frames (pages ++ zero_page ∷ []),
  length-append pages (zero_page ∷ []),
)

pub page_bytes-congr :
    (f g : ℕ → ℕ) (i j n : ℕ)
    → ((k : ℕ) → k < n → f (i + k) ≡ g (j + k))
    → page_bytes f i n ≡ page_bytes g j n
unfolding page_bytes
page_bytes-congr f g i j zero h = refl
page_bytes-congr f g i j (suc n) h =
    let head : f i ≡ g j = ap f (omega arith) ∙ h 0 (omega arith) ∙ ap g (omega arith) in
    let tail : page_bytes f (i + 1) n ≡ page_bytes g (j + 1) n =
      page_bytes-congr f g (i + 1) (j + 1) n
        (λ k lt. ap f (omega arith) ∙ h (suc k) (omega arith) ∙ ap g (omega arith)) in
    cc (head, tail)

pub page_bytes-append :
    (f : ℕ → ℕ) (i m n : ℕ) → page_bytes f i (m + n) ≡ page_bytes f i m ++ page_bytes f (i + m) n
unfolding page_bytes
page_bytes-append f i zero n =
    let e : i + 0 ≡ i = omega arith in let z : 0 + n ≡ n = omega arith in rw (e, z) refl
page_bytes-append f i (suc m) n =
    let e : i + 1 + m ≡ i + suc m = omega arith in
    let s : suc m + n ≡ suc (m + n) = omega arith in
    rw s (let at_next = page_bytes-append f (i + 1) m n in ap (λ l. f i ∷ l) (rw⁻¹ e at_next))
