-- ===== src/Text/Utf8.antt =====
-- `String::from_utf8_lossy`: a decoder that walks the bytes once. Its state is the character under
-- way: the bytes read of it, how many are still missing, and the range of the next one (the second
-- byte of E0, ED, F0 and F4 has a narrower range, which excludes overlong forms, surrogates and what
-- is above U+10FFFF). A byte out of range ends the character: one U+FFFD stands for its bytes, and
-- the byte is read again as a first one.
use zapd.Prelude.{
  ℕ, zero, suc, ◌<◌, ◌≡◌, refl, ◌∙◌, Bool, true, false, ◌&&◌, List, [], ◌∷◌, ◌++◌, append-nil,
  append_assoc, arith, ltb, leb, if◌then◌else◌, All, Bool-cases, and_true, inl, inr,
}

pub data State : Type 0 where
  start : State
  -- bytes read, bytes missing after the next one, least and greatest next byte
  within : List ℕ → ℕ → ℕ → ℕ → State

-- U+FFFD
abbrev pub replacement : List ℕ
replacement = 0xEF ∷ 0xBF ∷ 0xBD ∷ []

-- What a first byte starts: what is put out, and the new state.
first_byte : ℕ → List ℕ × State
first_byte b =
    if ltb b 0x80
    then (b ∷ [], start)
    else if ltb b 0xC2
    then (replacement, start)
    else if ltb b 0xE0
    then ([], within (b ∷ []) 0 0x80 0xBF)
    else if ltb b 0xE1
    then ([], within (b ∷ []) 1 0xA0 0xBF)
    else if ltb b 0xED
    then ([], within (b ∷ []) 1 0x80 0xBF)
    else if ltb b 0xEE
    then ([], within (b ∷ []) 1 0x80 0x9F)
    else if ltb b 0xF0
    then ([], within (b ∷ []) 1 0x80 0xBF)
    else if ltb b 0xF1
    then ([], within (b ∷ []) 2 0x90 0xBF)
    else if ltb b 0xF4
    then ([], within (b ∷ []) 2 0x80 0xBF)
    else if ltb b 0xF5
    then ([], within (b ∷ []) 2 0x80 0x8F)
    else (replacement, start)

next_byte : List ℕ → ℕ → List ℕ × State
next_byte read zero = (read, start)
next_byte read (suc n) = ([], within read n 0x80 0xBF)

step : State → ℕ → List ℕ × State
unfolding first_byte next_byte
step start b = first_byte b
step (within read n lo hi) b =
    if leb lo b && leb b hi
    then next_byte (read ++ (b ∷ [])) n
    else (let (out, s) = first_byte b in (replacement ++ out, s))

-- The bytes of an unfinished character at the end are one U+FFFD.
finish : State → List ℕ
finish start = []
finish (within _ _ _ _) = replacement

decode : State → List ℕ → List ℕ
decode s [] = finish s
decode s (b ∷ bs) = (step s b).0 ++ decode (step s b).1 bs

unfoldable pub from_utf8_lossy : List ℕ → List ℕ
unfolding decode step finish
from_utf8_lossy bs = decode start bs

-- `str::from_utf8` accepts: every byte continues the character under way or starts one, and the
-- last character is whole. (0xC0, 0xC1, 0xF5 to 0xFF and 0x80 to 0xBF start none.)
starts : ℕ → Bool
starts b = if ltb b 0x80 then true else leb 0xC2 b && leb b 0xF4

accepts : State → ℕ → Bool
accepts start b = starts b
accepts (within _ _ lo hi) b = leb lo b && leb b hi

whole : State → Bool
whole start = true
whole (within _ _ _ _) = false

valid_from : State → List ℕ → Bool
valid_from s [] = whole s
valid_from s (b ∷ bs) = accepts s b && valid_from (step s b).1 bs

unfoldable pub is_utf8 : List ℕ → Bool
unfolding valid_from accepts starts whole step
is_utf8 bs = valid_from start bs

abbrev pub IsUtf8 : List ℕ → Type 0
IsUtf8 bs = is_utf8 bs ≡ true

-- What is pending in a state.
abbrev pending : State → List ℕ
pending start = []
pending (within read _ _ _) = read

step-pending :
    (s : State) (b : ℕ)
    → accepts s b ≡ true
    → (step s b).0 ++ pending (step s b).1 ≡ pending s ++ (b ∷ [])
unfolding accepts starts step
step-pending start b h = ground arith
step-pending (within read zero lo hi) b h = rw h (append-nil _)
step-pending (within read (suc n) lo hi) b h = rw h

decode_valid : (s : State) (bs : List ℕ) → valid_from s bs ≡ true → decode s bs ≡ pending s ++ bs
unfolding decode valid_from finish whole
decode_valid start [] h = refl
decode_valid (within read n lo hi) [] h = cc
decode_valid s (b ∷ bs) h =
    let (a, v) = and_true (accepts s b) _ h in
    rw (decode_valid (step s b).1 bs v, ← append_assoc, step-pending s b a, append_assoc)

-- Decoding valid UTF-8 changes nothing.
pub from_utf8_lossy-eq : (bs : List ℕ) → IsUtf8 bs → from_utf8_lossy bs ≡ bs
unfolding is_utf8 from_utf8_lossy
from_utf8_lossy-eq bs h = decode_valid start bs h

valid_append :
    (s : State) (bs cs : List ℕ)
    → valid_from s bs ≡ true
    → valid_from s (bs ++ cs) ≡ valid_from start cs
unfolding valid_from whole
valid_append start [] cs h = refl
valid_append (within read n lo hi) [] cs h = cc
valid_append s (b ∷ bs) cs h =
    let (a, v) = and_true (accepts s b) _ h in rw a (valid_append (step s b).1 bs cs v)

pub append-IsUtf8 : (bs cs : List ℕ) → IsUtf8 bs → IsUtf8 cs → IsUtf8 (bs ++ cs)
unfolding is_utf8
append-IsUtf8 bs cs h k = valid_append start bs cs h ∙ k

pub All-lt-IsUtf8 : (bs : List ℕ) → All (λ b. b < 0x80) bs → IsUtf8 bs
unfolding is_utf8 valid_from accepts starts whole step first_byte
All-lt-IsUtf8 [] h = refl
All-lt-IsUtf8 (b ∷ bs) (p, h) = ground (arith, All-lt-IsUtf8 bs h)

-- A state is reached by its pending bytes.
record IsReached (s : State) : Type 0 where
  at : (rest : List ℕ) → valid_from start (pending s ++ rest) ≡ valid_from s rest

first_byte-IsReached : (b : ℕ) → IsReached (first_byte b).1
unfolding valid_from accepts starts step
first_byte-IsReached b = record { at = λ rest. ground arith }

next_byte-IsReached :
    (read : List ℕ) (n lo hi b : ℕ)
    → leb lo b && leb b hi ≡ true
    → IsReached (within read n lo hi)
    → IsReached (next_byte (read ++ (b ∷ [])) n).1
unfolding valid_from accepts step next_byte
next_byte-IsReached read zero lo hi b t h = record { at = λ rest. refl }
next_byte-IsReached read (suc n) lo hi b t h = record {
  at = λ rest. rw append_assoc (h.at (b ∷ rest) ∙ rw t);
}

step-IsReached : (s : State) (b : ℕ) → IsReached s → IsReached (step s b).1
unfolding step
step-IsReached start b h = first_byte-IsReached b
step-IsReached (within read n lo hi) b h = elim (Bool-cases (leb lo b && leb b hi)) [
  | inl t ↦ rw t (next_byte-IsReached read n lo hi b t h)
  | inr f ↦ rw f (first_byte-IsReached b)
]

-- What one byte puts out is whole characters.
first_byte_whole :
    (b : ℕ) (rest : List ℕ) → valid_from start ((first_byte b).0 ++ rest) ≡ valid_from start rest
unfolding valid_from accepts starts step first_byte
first_byte_whole b rest = ground arith

next_byte_whole :
    (read : List ℕ) (n lo hi b : ℕ) (rest : List ℕ)
    → leb lo b && leb b hi ≡ true
    → IsReached (within read n lo hi)
    → valid_from start ((next_byte (read ++ (b ∷ [])) n).0 ++ rest) ≡ valid_from start rest
unfolding valid_from accepts step next_byte
next_byte_whole read zero lo hi b rest t h = rw append_assoc (h.at (b ∷ rest) ∙ rw t)
next_byte_whole read (suc n) lo hi b rest t h = refl

replacement_whole : (rest : List ℕ) → valid_from start (replacement ++ rest) ≡ valid_from start rest
unfolding valid_from accepts starts step first_byte next_byte
replacement_whole rest = refl

step_whole :
    (s : State) (b : ℕ) (rest : List ℕ)
    → IsReached s
    → valid_from start ((step s b).0 ++ rest) ≡ valid_from start rest
unfolding step
step_whole start b rest h = first_byte_whole b rest
step_whole (within read n lo hi) b rest h = elim (Bool-cases (leb lo b && leb b hi)) [
  | inl t ↦ rw t (next_byte_whole read n lo hi b rest t h)
  | inr f ↦ rw f (replacement_whole ((first_byte b).0 ++ rest) ∙ first_byte_whole b rest)
]

decode-IsUtf8 : (s : State) (bs : List ℕ) → IsReached s → valid_from start (decode s bs) ≡ true
unfolding decode finish valid_from whole
decode-IsUtf8 start [] h = refl
decode-IsUtf8 (within read n lo hi) [] h = replacement_whole []
decode-IsUtf8 s (b ∷ bs) h =
    step_whole s b (decode (step s b).1 bs) h ∙ decode-IsUtf8 (step s b).1 bs (step-IsReached s b h)

-- Whatever the bytes, the decoded text is valid UTF-8.
pub from_utf8_lossy-IsUtf8 : (bs : List ℕ) → IsUtf8 (from_utf8_lossy bs)
unfolding is_utf8 from_utf8_lossy valid_from
from_utf8_lossy-IsUtf8 bs = decode-IsUtf8 start bs (record { at = λ rest. refl })
