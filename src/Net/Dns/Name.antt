-- ===== src/Net/Dns/Name.antt =====
-- src/net/dns.cpp: the form of an encoded name.
use uni_os.Prelude.{
  ℕ, ◌+◌, ◌<◌, ◌≤◌, ◌≡◌, ◌∙◌, ap, arith, ◌||◌, Bool-cases, Option, none, some, List, [], ◌∷◌, ◌++◌,
  leb, ◌==◌, length, length-append, inl, inr, refl,
}
use uni_os.Net.Dns.{dot, encode_from, dns_encode_name}

-- A label of a name: of 1 to 63 characters.
abbrev pub IsLabel : List ℕ → Type 0
IsLabel l = (0 < length l) × (length l < 64)

-- A first label and the others.
abbrev pub AreLabels : List ℕ → List (List ℕ) → Type 0
AreLabels l [] = IsLabel l
AreLabels l (next ∷ labels) = IsLabel l × AreLabels next labels

abbrev pub after_first : List (List ℕ) → List ℕ
after_first [] = []
after_first (l ∷ labels) = dot ∷ (l ++ after_first labels)

-- The labels with dots between them, as a host name has them.
abbrev pub dotted : List ℕ → List (List ℕ) → List ℕ
dotted l labels = l ++ after_first labels

abbrev pub wires : List (List ℕ) → List ℕ
wires [] = 0 ∷ []
wires (l ∷ labels) = length l ∷ (l ++ wires labels)

-- The labels with their lengths, as they are in a message: RFC 1035, section 3.1.
abbrev pub wire : List ℕ → List (List ℕ) → List ℕ
wire l labels = length l ∷ (l ++ wires labels)

-- What encoding `hostname` leads to: an encoding of at most 257 bytes of its labels, if there is one.
record IsEncoded (written rest out : List ℕ) : Type 0 where
  first : List ℕ
  labels : List (List ℕ)
  proper : AreLabels first labels
  text : rest ≡ dotted first labels
  bytes : out ≡ written ++ wire first labels
  short : length out ≤ 257

abbrev IsEncodedIfAny : (written rest : List ℕ) → Option (List ℕ) → Type 0
IsEncodedIfAny written rest none = Unit
IsEncodedIfAny written rest (some out) = IsEncoded written rest out

pub append_assoc : (a b c : List ℕ) → (a ++ b) ++ c ≡ a ++ (b ++ c)
append_assoc [] b c = refl
append_assoc (x ∷ a) b c = ap (λ l. x ∷ l) (append_assoc a b c)

pub append_nil : (a : List ℕ) → a ++ [] ≡ a
append_nil [] = refl
append_nil (x ∷ a) = ap (λ l. x ∷ l) (append_nil a)

next_label :
    (written label rest : List ℕ) (o : Option (List ℕ))
    → IsLabel label
    → IsEncodedIfAny (written ++ (length label ∷ label)) rest o
    → IsEncodedIfAny written (label ++ (dot ∷ rest)) o
next_label written label rest none proper h = tt
next_label written label rest (some out) proper h = record {
  first = label;
  labels = h.first ∷ h.labels;
  proper = (proper, h.proper);
  text = ap (λ l. label ++ (dot ∷ l)) h.text;
  bytes = h.bytes ∙ append_assoc written (length label ∷ label) (wire h.first h.labels);
  short = h.short;
}

text_congr :
    (written rest rest' : List ℕ) (o : Option (List ℕ))
    → rest ≡ rest'
    → IsEncodedIfAny written rest o
    → IsEncodedIfAny written rest' o
text_congr written rest rest' o e h = rw⁻¹ e h

encode_from-IsEncoded :
    (written label hostname : List ℕ)
    → length label < 64
    → length written + 1 + length label ≤ 256
    → IsEncodedIfAny written (label ++ hostname) (encode_from written label hostname)
unfolding encode_from
encode_from-IsEncoded written label [] small fits = elim (Bool-cases (length label == 0)) [
  | inl empty ↦ rw empty tt
  | inr full ↦ rw full (record {
    first = label;
    labels = [];
    proper = (ground arith, small);
    text = refl;
    bytes = refl;
    short = omega (
      arith,
      length-append written (length label ∷ (label ++ (0 ∷ []))),
      length-append label (0 ∷ []),
    );
  })
]
encode_from-IsEncoded written label (c ∷ hostname) small fits =
    let written' = written ++ (length label ∷ label) in
    elim (Bool-cases (c == dot)) [
      | inl stop ↦ elim (Bool-cases (length label == 0)) [
        | inl empty ↦ rw (stop, empty) tt
        | inr full ↦ elim (Bool-cases (leb 256 (length written' + 1))) [
          | inl long ↦ rw (stop, full, long) tt
          | inr room ↦
              let e : c ≡ 46 = ground arith in
              let h =
                next_label written label hostname _ (ground arith, small)
                  (encode_from-IsEncoded written' [] hostname (omega arith) (ground arith)) in
              rw (stop, full, room) (rw e h)
        ]
      ]
      | inr letter ↦
          elim (Bool-cases (leb 63 (length label) || leb 256 (length written + 1 + length label))) [
            | inl long ↦ rw (letter, long) tt
            | inr room ↦
                let l = length-append label (c ∷ []) in
                rw (letter, room)
                  (text_congr written ((label ++ (c ∷ [])) ++ hostname) (label ++ (c ∷ hostname)) _
                    (append_assoc label (c ∷ []) hostname)
                    (encode_from-IsEncoded written (label ++ (c ∷ [])) hostname (ground (arith, l))
                      (ground (arith, l))))
          ]
    ]

-- What a name is encoded to, if it is: its labels, each of 1 to 63 characters, with their lengths, in
-- at most 257 bytes.
abbrev pub IsName : List ℕ → Option (List ℕ) → Type 0
IsName hostname none = Unit
IsName hostname (some out) =
    (first : List ℕ) × (labels : List (List ℕ)) × AreLabels first labels
    × (hostname ≡ dotted first labels)
    × (out ≡ wire first labels)
    × (length out ≤ 257)

IsName-encoded :
    (hostname : List ℕ) (o : Option (List ℕ)) → IsEncodedIfAny [] hostname o → IsName hostname o
IsName-encoded hostname none h = tt
IsName-encoded hostname (some out) h = (h.first, h.labels, h.proper, h.text, h.bytes, h.short)

-- If dns_encode_name gives bytes for a host name, then the name is labels of 1 to 63 characters with
-- dots between them, and the bytes are those labels, each behind its length, and a zero at the end, 257
-- bytes at most.
pub dns_encode_name-IsName : (hostname : List ℕ) → IsName hostname (dns_encode_name hostname)
unfolding dns_encode_name
dns_encode_name-IsName [] = tt
dns_encode_name-IsName (c ∷ hostname) =
    IsName-encoded (c ∷ hostname) (encode_from [] [] (c ∷ hostname))
      (encode_from-IsEncoded [] [] (c ∷ hostname) (omega arith) (omega arith))
