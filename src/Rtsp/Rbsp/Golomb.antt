-- ===== src/Rtsp/Rbsp/Golomb.antt =====
-- Fixed-width fields and Exp-Golomb code words against `bits` and `unsigned_exp_golomb` of
-- src/backend/rtsp.rs.
use native.Mathlib.Nat.{pow-suc, pow-le-pow_right}
use mathlib.Core.List.{append-nil, append_assoc}
use camera_adapter.Base.{
  ℕ, zero, suc, ◌+◌, ◌-◌, ◌*◌, ◌%◌, ◌^◌, ◌≤◌, ◌<◌, ◌≡◌, sym, ap, ◌∙◌, subst, Bool, true, false,
  some, List, [], ◌∷◌, ◌++◌, arith, length,
}
use camera_adapter.Base.Words.{u32_max, u64_max, checked, saturating_add}
use camera_adapter.Error.{CameraError}
use camera_adapter.Rtsp.{security_error}
use camera_adapter.Rtsp.Rbsp.{
  Read, pure, some_or, refuse_if, ◌>>◌, bit_value, bits_from, bits, count_zeroes,
  unsigned_exp_golomb,
}
use camera_adapter.Rtsp.Rbsp.Reads.{Reads, pure-Reads, >>=-Reads, bit-Reads}

-- The number that a bit list writes behind `value`, the highest bit first.
unfoldable pub value_from : ℕ → List Bool → ℕ
value_from value [] = value
value_from value (b ∷ bs) = value_from (value * 2 + bit_value b) bs

doubled-lt : (k v : ℕ) (b : Bool) → v < 2 ^ k → v * 2 + bit_value b < 2 ^ suc k
doubled-lt k v true h = omega (arith, pow-suc 2 k)
doubled-lt k v false h = omega (arith, pow-suc 2 k)

value_from-lt :
    (k n v : ℕ) (bs : List Bool) → k + length bs ≡ n → v < 2 ^ k → value_from v bs < 2 ^ n
unfolding value_from
value_from-lt k n v [] e h = let e' : k ≡ n = omega arith in rw (← e') h
value_from-lt k n v (b ∷ bs) e h =
    value_from-lt (suc k) n (v * 2 + bit_value b) bs (omega arith) (doubled-lt k v b h)

doubled_fits : (k v : ℕ) → suc k ≤ 64 → v < 2 ^ k → v * 2 % 2 ^ 64 ≡ v * 2
doubled_fits k v le h = omega (arith, pow-suc 2 k, pow-le-pow_right {n = 2} (omega arith) le)

bits_from-Reads :
    (v k : ℕ) (bs : List Bool)
    → v < 2 ^ k
    → k + length bs ≤ 64
    → Reads (bits_from (length bs) v) bs (value_from v bs)
unfolding bits_from value_from
bits_from-Reads v k [] h fits = pure-Reads v
bits_from-Reads v k (b ∷ bs) h fits = >>=-Reads _ (bit-Reads b) (
    subst
      (λ n.
        Reads (bits_from (length bs) (n + bit_value b)) bs (value_from (v * 2 + bit_value b) bs))
      (sym (doubled_fits k v (omega arith) h))
      (bits_from-Reads (v * 2 + bit_value b) (suc k) bs (doubled-lt k v b h) (omega arith)))

pub passed-Reads {ℓ} :
    {A : Type ℓ} {m : Read A} {taken : List Bool} {a : A} (c : Bool) (e : CameraError)
    → c ≡ false
    → Reads m taken a
    → Reads (refuse_if c e >> m) taken a
passed-Reads {m} {taken} {a} c e ec h =
    subst (λ d. Reads (refuse_if d e >> m) taken a) (sym ec) (record { run = h.run })

pub bits-Reads : (bs : List Bool) → length bs ≤ 64 → Reads (bits (length bs)) bs (value_from 0 bs)
unfolding bits
bits-Reads bs fits =
    passed-Reads _ _ (ground arith) (bits_from-Reads 0 0 bs (omega arith) (omega arith))

unfoldable pub falses : ℕ → List Bool
falses zero = []
falses (suc n) = false ∷ falses n

count_zeroes-Reads :
    (left n counted : ℕ)
    → n < left
    → counted + n ≤ 31
    → Reads (count_zeroes left counted) (falses n ++ (true ∷ [])) (counted + n)
unfolding count_zeroes falses
count_zeroes-Reads zero n counted lt le = absurd (omega arith)
count_zeroes-Reads (suc left) zero counted lt le =
    >>=-Reads _ (bit-Reads true)
      (subst (λ n. Reads (pure counted) [] n) (omega arith) (pure-Reads counted))
count_zeroes-Reads (suc left) (suc n) counted lt le = >>=-Reads _ (bit-Reads false) (
    passed-Reads _ _ (ground arith) (
      subst (λ k. Reads (count_zeroes left (counted + 1)) (falses n ++ (true ∷ [])) k) (omega arith)
        (count_zeroes-Reads left n (counted + 1) (omega arith) (omega arith))))

prefix-Reads : (n : ℕ) → n ≤ 31 → Reads (count_zeroes 32 0) (falses n ++ (true ∷ [])) n
prefix-Reads n le =
    subst (λ k. Reads (count_zeroes 32 0) (falses n ++ (true ∷ [])) k) (omega arith)
      (count_zeroes-Reads 32 n 0 (omega arith) (omega arith))

-- An Exp-Golomb code word: as many zeros as the suffix has bits, a one, and the suffix.
unfoldable pub code_word : List Bool → List Bool
code_word suffix = falses (length suffix) ++ (true ∷ suffix)

unfoldable pub golomb_value : List Bool → ℕ
golomb_value suffix = 2 ^ length suffix - 1 + value_from 0 suffix

golomb_fits :
    (suffix : List Bool)
    → length suffix ≤ 31
    → checked u32_max (saturating_add u64_max (2 ^ length suffix - 1) (value_from 0 suffix))
      ≡ some (golomb_value suffix)
unfolding golomb_value
golomb_fits suffix le = ground (
  arith,
  value_from-lt 0 (length suffix) 0 suffix (omega arith) (omega arith),
  pow-le-pow_right {n = 2} (omega arith) le,
)

-- A code word with a suffix of 31 bits at most is read whole, and nothing after it is.
pub unsigned_exp_golomb-Reads :
    (suffix : List Bool)
    → length suffix ≤ 31
    → Reads unsigned_exp_golomb (code_word suffix) (golomb_value suffix)
unfolding unsigned_exp_golomb code_word
unsigned_exp_golomb-Reads suffix le =
    subst (λ taken. Reads unsigned_exp_golomb taken (golomb_value suffix)) parts
      (>>=-Reads _ (prefix-Reads (length suffix) le) (
        >>=-Reads _ (bits-Reads suffix (omega arith)) (
          subst
            (λ o.
              Reads (some_or o (security_error "codec Exp-Golomb value overflowed")) []
                (golomb_value suffix))
            (sym (golomb_fits suffix le)) (pure-Reads (golomb_value suffix)))))
  where
    parts :
        (falses (length suffix) ++ (true ∷ [])) ++ (suffix ++ [])
        ≡ falses (length suffix) ++ (true ∷ suffix)
    parts =
        append_assoc (falses (length suffix)) (true ∷ []) (suffix ++ [])
        ∙ ap (λ xs. falses (length suffix) ++ (true ∷ xs)) (append-nil suffix)
