-- ===== src/Eclib/Format/Fits.antt =====
-- The output stays inside the buffer.
use mathlib.Core.Path.{subst}
use e_comos.Prelude.{
  ℕ, zero, suc, ◌+◌, ◌-◌, ◌≤◌, ◌<◌, ◌≡◌, ◌≢◌, ◌⊎◌, inl, inr, refl, ap, sym, ◌∙◌, false, ◌||◌,
  Option, none, some, List, [], ◌∷◌, ◌++◌, length, take, ◌==◌, arith, Bool-cases, if_true, if_false,
  length-take, length-append,
}
use e_comos.Prelude.Int.{ℤ, pos, negsuc}
use e_comos.Eclib.Memory.{Memory, write}
use e_comos.Eclib.Format.{
  FormatArg, conversion, put, converted, format, store_bytes, finished, eclib_snprintf,
}

-- the output, if there is one, is at most `room` bytes long
abbrev AtMost : ℕ → Option (List ℕ) → Type 0
AtMost room none = 0 ≤ room
AtMost room (some out) = length out ≤ room

put-AtMost :
    (text : List ℕ) (left room : ℕ) (o : Option (List ℕ))
    → length text + left ≤ room
    → AtMost left o
    → AtMost room (put text o)
put-AtMost text left room none h a = omega arith
put-AtMost text left room (some out) h a = omega (arith, length-append text out)

converted-AtMost :
    (again : List FormatArg → ℕ → Option (List ℕ)) (room : ℕ) (o : Option (List ℕ × List FormatArg))
    → ((args : List FormatArg) (left : ℕ) → AtMost left (again args left))
    → AtMost room (converted again room o)
converted-AtMost again room none h = omega arith
converted-AtMost again room (some (text, args)) h =
    put-AtMost (take room text) (room - length (take room text)) room
      (again args (room - length (take room text))) (omega (arith, length-take room text))
      (h args (room - length (take room text)))

format-AtMost :
    (fmt : List ℕ) (args : List FormatArg) (room : ℕ) → AtMost room (format fmt args room)
unfolding format
format-AtMost [] args room = omega arith
format-AtMost (c ∷ fmt) args zero = omega arith
format-AtMost (c ∷ []) args (suc room) = omega arith
format-AtMost (c ∷ d ∷ fmt) args (suc room) = elim (Bool-cases (c == b'%')) [
  | inl on ↦ subst (AtMost (suc room)) (sym (if_true _ _ on)) (
      converted-AtMost (λ more left. format fmt more left) (suc room) (conversion d args)
        (λ more left. format-AtMost fmt more left))
  | inr off ↦ subst (AtMost (suc room)) (sym (if_false _ _ off)) (
      put-AtMost (c ∷ []) room (suc room) (format (d ∷ fmt) args room) (omega arith)
        (format-AtMost (d ∷ fmt) args room))
]

store_bytes_outside :
    (bytes : List ℕ) (ptr : ℕ) (mem : Memory) (x : ℕ)
    → (x < ptr) ⊎ (ptr + length bytes ≤ x)
    → store_bytes bytes ptr mem x ≡ mem x
unfolding store_bytes
store_bytes_outside [] ptr mem x h = refl
store_bytes_outside (c ∷ cs) ptr mem x h =
    store_bytes_outside cs (ptr + 1) (write ptr c mem) x (grind arith)
    ∙ if_false {b = ptr == x} _ _ (ground arith)

-- the terminator behind the text
store_bytes_last :
    (out : List ℕ) (ptr : ℕ) (mem : Memory)
    → store_bytes (out ++ 0 ∷ []) ptr mem (ptr + length out) ≡ 0
unfolding store_bytes
store_bytes_last [] ptr mem = if_true {b = ptr == ptr + 0} _ _ (ground arith)
store_bytes_last (c ∷ out) ptr mem =
    ap (store_bytes (out ++ 0 ∷ []) (ptr + 1) (write ptr c mem)) {y = ptr + 1 + length out}
      (omega arith)
    ∙ store_bytes_last out (ptr + 1) (write ptr c mem)

abbrev Inside : ℕ → ℕ → Memory → ℕ → ℕ → Memory → Type 0
Inside buf size mem x n after = (n < size) × (after (buf + n) ≡ 0) × (after x ≡ mem x)

finished-Inside :
    (buf size : ℕ) (mem : Memory) (x : ℕ) (o : Option (List ℕ)) {n : ℕ} {after : Memory}
    → size ≢ 0
    → AtMost (size - 1) o
    → (x < buf) ⊎ (buf + size ≤ x)
    → finished buf mem o ≡ some (pos n, after)
    → Inside buf size mem x n after
finished-Inside buf size mem x none ne a h e = absurd (ground arith)
finished-Inside buf size mem x (some out) {n} {after} ne a h e =
    subst (λ r. Inside buf size mem x r.0 r.1) (same e)
      (omega arith, store_bytes_last out buf mem, store_bytes_outside (out ++ 0 ∷ []) buf mem x far)
  where
    same :
        {a b : ℕ} {s t : Memory}
        → ◌≡◌ {A = Option (ℤ × Memory)} (some (pos a, s)) (some (pos b, t))
        → ◌≡◌ {A = ℕ × Memory} (a, s) (b, t)
    same e = cc

    far : (x < buf) ⊎ (buf + length (out ++ 0 ∷ []) ≤ x)
    far = grind (arith, length-append out (0 ∷ []))

-- Where `eclib_snprintf` returns a length, it is less than the size of the buffer, a 0 stands behind the
-- text, and no byte outside the buffer has changed.
pub eclib_snprintf_inside :
    (buf size : ℕ) (fmt : List ℕ) (args : List FormatArg) (mem : Memory) (x : ℕ) {n : ℕ}
    {after : Memory}
    → (x < buf) ⊎ (buf + size ≤ x)
    → eclib_snprintf buf size (some fmt) args mem ≡ some (pos n, after)
    → (n < size) × (after (buf + n) ≡ 0) × (after x ≡ mem x)
unfolding eclib_snprintf
eclib_snprintf_inside buf size fmt args mem x h e = elim (Bool-cases (buf == 0 || size == 0)) [
  | inl on ↦ absurd (refused (sym (if_true _ _ on) ∙ e))
  | inr off ↦
      finished-Inside buf size mem x (format fmt args (size - 1)) (sized off)
        (format-AtMost fmt args (size - 1)) h (sym (if_false _ _ off) ∙ e)
]
  where
    refused :
        {k : ℕ} {s t : Memory}
        → ◌≡◌ {A = Option (ℤ × Memory)} (some (negsuc 0, s)) (some (pos k, t))
        → ⊥
    refused e = cc

    sized : (buf == 0 || size == 0) ≡ false → size ≢ 0
    sized off = ground arith
