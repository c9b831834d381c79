-- ===== src/Net/Dns/Encode.antt =====
-- src/net/dns.cpp: which names are encoded.
use uni_os.Prelude.{
  ℕ, ◌+◌, ◌≤◌, ◌≡◌, ◌≢◌, ◌∙◌, ap, arith, false, ◌||◌, some, List, [], ◌∷◌, ◌++◌, leb, ◌==◌, length,
  length-append, refl,
}
use uni_os.Net.Dns.{dot, encode_from, dns_encode_name}
use uni_os.Net.Dns.Name.{
  IsLabel, AreLabels, after_first, dotted, wires, wire, append_assoc, append_nil,
}

abbrev pub HasNoDot : List ℕ → Type 0
HasNoDot [] = Unit
HasNoDot (c ∷ l) = (c ≢ 46) × HasNoDot l

abbrev pub HaveNoDot : List (List ℕ) → Type 0
HaveNoDot [] = Unit
HaveNoDot (l ∷ labels) = HasNoDot l × HaveNoDot labels

first-IsLabel : (l : List ℕ) (labels : List (List ℕ)) → AreLabels l labels → IsLabel l
first-IsLabel l [] h = h
first-IsLabel l (next ∷ labels) h = h.0

encode_from-wire :
    (labels : List (List ℕ)) (suf written pre : List ℕ)
    → HasNoDot suf
    → HaveNoDot labels
    → AreLabels (pre ++ suf) labels
    → length written + length (wire (pre ++ suf) labels) ≤ 256
    → encode_from written pre (suf ++ after_first labels)
      ≡ some (written ++ wire (pre ++ suf) labels)
unfolding encode_from
encode_from-wire labels (c ∷ suf) written pre d ds proper fits =
    let other : (c == dot) ≡ false = ground (arith, d.0) in
    let assoc : (pre ++ (c ∷ [])) ++ suf ≡ pre ++ (c ∷ suf) = append_assoc pre (c ∷ []) suf in
    let whole = length-append pre (c ∷ suf) in
    let long = length-append (pre ++ (c ∷ suf)) (wires labels) in
    let label = first-IsLabel (pre ++ (c ∷ suf)) labels proper in
    let room : (leb 63 (length pre) || leb 256 (length written + 1 + length pre)) ≡ false =
      ground (arith, whole, long, label) in
    let proper' : AreLabels ((pre ++ (c ∷ [])) ++ suf) labels = rw assoc proper in
    let fits' : length written + length (wire ((pre ++ (c ∷ [])) ++ suf) labels) ≤ 256 =
      rw assoc fits in
    rw (other, room)
      (rw⁻¹ assoc (encode_from-wire labels suf written (pre ++ (c ∷ [])) d.1 ds proper' fits'))
encode_from-wire [] [] written pre d ds proper fits =
    let nil = append_nil pre in
    let proper' : IsLabel pre = rw⁻¹ nil proper in
    let full : (length pre == 0) ≡ false = ground (arith, proper') in rw (nil, full) refl
encode_from-wire (l ∷ labels) [] written pre d ds proper fits =
    let nil = append_nil pre in
    let proper' : IsLabel pre = rw⁻¹ nil proper.0 in
    let full : (length pre == 0) ≡ false = ground (arith, proper') in
    let fits' : length written + length (wire pre (l ∷ labels)) ≤ 256 = rw⁻¹ nil fits in
    let written' = written ++ (length pre ∷ pre) in
    let before = length-append written (length pre ∷ pre) in
    let behind = length-append pre (wires (l ∷ labels)) in
    let last = length-append l (wires labels) in
    let label = first-IsLabel l labels proper.1 in
    let room : leb 256 (length written' + 1) ≡ false =
      ground (arith, before, behind, last, label) in
    let rest =
      encode_from-wire labels l written' [] ds.0 ds.1 proper.1 (omega (arith, before, behind)) in
    rw (nil, full, room) (rest ∙ ap some (append_assoc written (length pre ∷ pre) (wire l labels)))

-- A host name of labels of 1 to 63 characters other than dots, with dots between them, is encoded if its
-- encoding takes 256 bytes at most, to its labels, each behind its length, and a zero at the end.
pub dns_encode_name-wire :
    (first : List ℕ) (labels : List (List ℕ))
    → AreLabels first labels
    → HasNoDot first
    → HaveNoDot labels
    → length (wire first labels) ≤ 256
    → dns_encode_name (dotted first labels) ≡ some (wire first labels)
unfolding dns_encode_name
dns_encode_name-wire [] labels proper d ds fits =
    let label = first-IsLabel [] labels proper in absurd (omega (arith, label))
dns_encode_name-wire (c ∷ first) labels proper d ds fits =
    encode_from-wire labels (c ∷ first) [] [] d ds proper (omega arith)
