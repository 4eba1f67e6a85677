-- ===== src/Idempotency/Framing.antt =====
-- The bytes that the digests are taken of: `framed` of idempotency.py. Bytes are numbers, and UTF-8
-- is a parameter.
use ai_auto_test_platform.Prelude.{
  ℕ, ◌/◌, ◌%◌, ◌<◌, ◌≡◌, refl, ap, sym, ◌∙◌, String, Option, none, some, List, [], ◌∷◌, ◌++◌, map,
  length, ltb, arith, if◌then◌else◌,
}
use mathlib.Core.List.{append_assoc}

-- `value.to_bytes(4, "big")`
unfoldable pub word : ℕ → List ℕ
word n = n / 16777216 % 256 ∷ n / 65536 % 256 ∷ n / 256 % 256 ∷ n % 256 ∷ []

-- Its OverflowError, and one of a later value, is none.
unfoldable pub frame : List ℕ → Option (List ℕ) → Option (List ℕ)
frame value none = none
frame value (some rest) =
    if ltb (length value) 4294967296 then some (word (length value) ++ (value ++ rest)) else none

unfoldable pub framed : (String → List ℕ) → List String → Option (List ℕ)
framed utf8 [] = some []
framed utf8 (v ∷ vs) = frame (utf8 v) (framed utf8 vs)

word-injective : (m n : ℕ) → m < 4294967296 → n < 4294967296 → word m ≡ word n → m ≡ n
unfolding word
word-injective m n hm hn e = ground (arith)

module _ {A : Type 0} where
  append-injective :
      (xs ys p q : List A) → length xs ≡ length ys → xs ++ p ≡ ys ++ q → (xs ≡ ys) × (p ≡ q)
  append-injective [] [] p q l e = (refl, e)
  append-injective [] (y ∷ ys) p q l e = absurd (omega (arith, l))
  append-injective (x ∷ xs) [] p q l e = absurd (omega (arith, l))
  append-injective (x ∷ xs) (y ∷ ys) p q l e =
      let rest = append-injective xs ys p q (omega (arith, l)) (ground (arith)) in
      (ground (arith, rest.0), rest.1)

-- The library's `append_assoc` under a head of four bytes.
word-append : (n : ℕ) (v a p : List ℕ) → word n ++ (v ++ (a ++ p)) ≡ (word n ++ (v ++ a)) ++ p
unfolding word
word-append n v a p = rw (append_assoc v a p) refl

-- The bytes that one value adds.
pub record Framed (value : List ℕ) (rest : Option (List ℕ)) (bytes : List ℕ) : Type 0 where
  pub tail : List ℕ
  pub tail_is : rest ≡ some tail
  pub short : length value < 4294967296
  pub shape : word (length value) ++ (value ++ tail) ≡ bytes

frame-Framed :
    (value : List ℕ) (rest : Option (List ℕ)) (bytes : List ℕ)
    → frame value rest ≡ some bytes
    → Framed value rest bytes
unfolding frame
frame-Framed value none bytes e = cc
frame-Framed value (some tail) bytes e = record {
  tail = tail;
  tail_is = refl;
  short = ground (arith);
  shape = ground (arith);
}

-- A frame at the head of two byte strings is the same frame.
heads :
    (v w : List ℕ) (a b : List ℕ)
    → length v < 4294967296
    → length w < 4294967296
    → word (length v) ++ (v ++ a) ≡ word (length w) ++ (w ++ b)
    → (v ≡ w) × (a ≡ b)
unfolding word
heads v w a b hv hw e =
    let parts = append-injective (word (length v)) (word (length w)) (v ++ a) (w ++ b) refl e in
    append-injective v w a b (word-injective (length v) (length w) hv hw parts.0) parts.1

module _ (utf8 : String → List ℕ) where
  -- Two lists of the same number of values whose frames, with any bytes after them, are the same bytes
  -- are the same values after encoding, and so are the bytes after them.
  pub framed-prefix :
      (vs ws : List String) (a b p q : List ℕ)
      → length vs ≡ length ws
      → framed utf8 vs ≡ some a
      → framed utf8 ws ≡ some b
      → a ++ p ≡ b ++ q
      → (map utf8 vs ≡ map utf8 ws) × (p ≡ q)
  unfolding framed
  framed-prefix [] [] a b p q l ea eb e = (refl, ground arith)
  framed-prefix [] (w ∷ ws) a b p q l ea eb e = absurd (omega (arith, l))
  framed-prefix (v ∷ vs) [] a b p q l ea eb e = absurd (omega (arith, l))
  framed-prefix (v ∷ vs) (w ∷ ws) a b p q l ea eb e =
      let fa = frame-Framed (utf8 v) (framed utf8 vs) a ea in
      let fb = frame-Framed (utf8 w) (framed utf8 ws) b eb in
      let parts = heads (utf8 v) (utf8 w) (fa.tail ++ p) (fb.tail ++ q) fa.short fb.short (
        word-append (length (utf8 v)) (utf8 v) fa.tail p
        ∙ ap (λ x. x ++ p) fa.shape
        ∙ e
        ∙ sym (ap (λ x. x ++ q) fb.shape)
        ∙ sym (word-append (length (utf8 w)) (utf8 w) fb.tail q)) in
      let rest =
        framed-prefix vs ws fa.tail fb.tail p q (omega (arith, l)) fa.tail_is fb.tail_is parts.1 in
      (cc (parts.0, rest.0), rest.1)

  -- Two lists of values, of whatever lengths, that are framed as the same bytes are the same values
  -- after encoding.
  pub framed-injective :
      (vs ws : List String) (bytes : List ℕ)
      → framed utf8 vs ≡ some bytes
      → framed utf8 ws ≡ some bytes
      → map utf8 vs ≡ map utf8 ws
  unfolding framed word
  framed-injective [] [] bytes ea eb = refl
  framed-injective [] (w ∷ ws) bytes ea eb =
      let fb = frame-Framed (utf8 w) (framed utf8 ws) bytes eb in cc (ea, fb.shape)
  framed-injective (v ∷ vs) [] bytes ea eb =
      let fa = frame-Framed (utf8 v) (framed utf8 vs) bytes ea in cc (eb, fa.shape)
  framed-injective (v ∷ vs) (w ∷ ws) bytes ea eb =
      let fa = frame-Framed (utf8 v) (framed utf8 vs) bytes ea in
      let fb = frame-Framed (utf8 w) (framed utf8 ws) bytes eb in
      let parts =
        heads (utf8 v) (utf8 w) fa.tail fb.tail fa.short fb.short (fa.shape ∙ sym fb.shape) in
      let rest = framed-injective vs ws fa.tail fa.tail_is (fb.tail_is ∙ ap some (sym parts.1)) in
      cc (parts.0, rest)
