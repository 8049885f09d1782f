-- ===== src/Id/Label.antt =====
-- `label`, and the size of the ids that a labelled host stamps.
use zapd.Prelude.{
  ℕ, ◌+◌, ◌≤◌, ◌<◌, ◌≡◌, ◌≢◌, sym, ap, ◌∙◌, subst, zero, suc, some, [], ◌∷◌, map, arith, length,
  length-append, length-take, take, All, All-append,
}
use zapd.Text.{Str}
use zapd.Text.Utf8.{All-lt-IsUtf8}
use zapd.Text.Split.{Lacks, split, first_part}
use zapd.Frame.Control.RoundTrip.{IsShort}
use zapd.Id.{slash, clean, chars, to_ascii_lowercase, non_empty, label, full_id, stamp}
use zapd.Id.Stamp.{LabelChar, Names, stamp-Names, kind_shape, KindShape, All_map}

-- 1 to 16 characters of `[a-z0-9-]`.
pub record IsLabel (s : Str) : Type 0 where
  pub chars : All LabelChar s
  pub long : 1 ≤ length s
  pub short : length s ≤ 16

LabelChar-clean : (c : ℕ) → LabelChar (clean c)
unfolding clean
LabelChar-clean c = ground arith

All-map-clean : (s : Str) → All LabelChar (map clean s)
All-map-clean [] = tt
All-map-clean (c ∷ cs) = (LabelChar-clean c, All-map-clean cs)

All-take : (n : ℕ) (s : Str) → All LabelChar s → All LabelChar (take n s)
All-take zero s h = tt
All-take (suc n) [] h = tt
All-take (suc n) (c ∷ cs) (p, h) = (p, All-take n cs h)

non_empty-IsLabel : (s : Str) → All LabelChar s → length s ≤ 16 → IsLabel (non_empty s)
unfolding non_empty
non_empty-IsLabel [] h n = record { chars = omega arith; long = omega arith; short = omega arith }
non_empty-IsLabel (c ∷ cs) h n = record { chars = h; long = omega arith; short = n }

-- Whatever the hostname, its label is 1 to 16 characters of `[a-z0-9-]`.
pub label-IsLabel : (hostname : Str) → IsLabel (label hostname)
unfolding label
label-IsLabel hostname =
    let s : Str = map clean (map to_ascii_lowercase (chars (first_part (split b'.' hostname)))) in
    non_empty-IsLabel (take 16 s) (All-take 16 s (All-map-clean _))
      (omega (arith, length-take 16 s))

pub IsLabel-Lacks : (s : Str) → IsLabel s → Lacks slash s
IsLabel-Lacks s h = All_map LabelChar (λ c. c ≢ slash) (λ c p. ground arith) s h.chars

LabelChar-ascii : (s : Str) → All LabelChar s → All (λ c. c < 0x80) s
LabelChar-ascii = All_map LabelChar (λ c. c < 0x80) (λ c p. ground arith)

full_id_ascii :
    (k h n : Str)
    → All (λ c. c < 0x80) k
    → All LabelChar h
    → All LabelChar n
    → All (λ c. c < 0x80) (full_id k h n)
full_id_ascii k h n pk ph pn =
    let P : ℕ → Type 0 = λ c. c < 0x80 in
    All-append P k _ pk
      (omega arith, All-append P h _ (LabelChar-ascii h ph) (omega arith, LabelChar-ascii n pn))

length-full_id : (k h n : Str) → length (full_id k h n) ≡ length k + length h + length n + 2
length-full_id k h n = simp length-append (omega arith)

-- An id that a router with a host label gives out is ASCII of at most 41 bytes.
pub stamp-IsShort :
    (proposed host id : Str)
    → IsLabel host
    → stamp proposed host ≡ some id
    → IsShort id × (length id ≤ 41) × (1 ≤ length id)
stamp-IsShort proposed host id label e =
    let h : Names proposed host id = stamp-Names proposed host id e in
    let k : KindShape h.kind = kind_shape h.kind h.known in
    let ascii : All (λ c. c < 0x80) id =
      subst (All (λ c. c < 0x80)) (sym h.to)
        (full_id_ascii h.kind host h.name k.1 label.chars h.named.chars) in
    let n : length id ≡ length h.kind + length host + length h.name + 2 =
      ap length h.to ∙ length-full_id h.kind host h.name in
    (
      record { short = omega (arith, h.named.short); utf8 = All-lt-IsUtf8 id ascii },
      omega (arith, h.named.short),
      omega arith,
    )
