-- ===== src/Rtsp/Rbsp/Reads.antt =====
-- What the calls of `RbspBitReader` of src/backend/rtsp.rs take from the bits that are left.
use mathlib.Core.List.{append_assoc, head-eq_of_cons-eq, tail-eq_of_cons-eq}
use camera_adapter.Base.{
  ℕ, zero, suc, ◌+◌, ◌-◌, ◌*◌, ◌/◌, ◌%◌, ◌^◌, ◌≤◌, ◌<◌, ◌≡◌, refl, ap, ◌∙◌, subst, Bool, some, List,
  [], ◌∷◌, ◌++◌, arith, length, get_elem?,
}
use camera_adapter.Base.Words.{u64_max}
use camera_adapter.Error.{ok}
use camera_adapter.Rtsp.Bytes.{has_bit, drop}
use camera_adapter.Rtsp.Rbsp.{RbspBitReader, Read, pure, ◌>>=◌, bit, skip, skip}

-- The bits of the bytes, the highest of each byte first.
unfoldable pub bits_of : List ℕ → List Bool
bits_of [] = []
bits_of (b ∷ bs) =
    has_bit 7 b
    ∷ has_bit 6 b
    ∷ has_bit 5 b
    ∷ has_bit 4 b
    ∷ has_bit 3 b
    ∷ has_bit 2 b
    ∷ has_bit 1 b
    ∷ has_bit 0 b
    ∷ bits_of bs

unfoldable pub unread : RbspBitReader → List Bool
unread r = drop r.bit_offset (bits_of r.bytes)

-- The offset has room to count the bits that are left.
abbrev pub HasRoom : RbspBitReader → Type 0
HasRoom r = length r.bytes * 8 < 2 ^ 64

-- With `taken` in front of the bits that are left, the call succeeds with `a` and takes just those.
pub record Reads {ℓ} {A : Type ℓ} (m : Read A) (taken : List Bool) (a : A) : Type ℓ where
  pub run :
      (r : RbspBitReader) (rest : List Bool)
      → HasRoom r
      → unread r ≡ taken ++ rest
      → (r' : RbspBitReader) × (m r ≡ ok (a, r')) × (unread r' ≡ rest) × HasRoom r'

pub pure-Reads {ℓ} : {A : Type ℓ} (a : A) → Reads (pure a) [] a
pure-Reads a = record { run = λ r rest room e. (r, refl, e, room) }

pub >>=-Reads {ℓ} :
    {A B : Type ℓ} {m : Read A} (f : A → Read B) {xs ys : List Bool} {a : A} {b : B}
    → Reads m xs a
    → Reads (f a) ys b
    → Reads (m >>= f) (xs ++ ys) b
>>=-Reads f {xs} {ys} mx fy = record {
  run = λ r rest room e.
      let (r1, m1, e1, room1) = mx.run r (ys ++ rest) room (e ∙ append_assoc xs ys rest) in
      let (r2, m2, e2, room2) = fy.run r1 rest room1 e1 in (r2, rw m1 m2, e2, room2);
}

-- One step on the bits of a list of bytes.
record At (bytes : List ℕ) (o : ℕ) (b : Bool) (rest : List Bool) : Type 0 where
  byte : ℕ
  found : get_elem? bytes (o / 8) ≡ some byte
  is_bit : has_bit (7 - o % 8) byte ≡ b
  left : drop (suc o) (bits_of bytes) ≡ rest
  within : o < length bytes * 8

in_first :
    {x : ℕ} {xs : List ℕ} {o : ℕ} {b : Bool} {rest : List Bool}
    → o < 8
    → has_bit (7 - o % 8) x ≡ b
    → drop (suc o) (bits_of (x ∷ xs)) ≡ rest
    → At (x ∷ xs) o b rest
in_first {x} {xs} {o} lt is after =
    let first : 0 ≡ o / 8 = omega arith in
    record {
      byte = x;
      found = subst (λ i. get_elem? (x ∷ xs) i ≡ some x) first refl;
      is_bit = is;
      left = after;
      within = omega arith;
    }

eighth_after : (o : ℕ) → suc (o / 8) ≡ suc (suc (suc (suc (suc (suc (suc (suc o))))))) / 8
eighth_after o = omega arith

place_after : (o : ℕ) → o % 8 ≡ suc (suc (suc (suc (suc (suc (suc (suc o))))))) % 8
place_after o = omega arith

bits_of-At :
    (bytes : List ℕ) (o : ℕ) (b : Bool) (rest : List Bool)
    → drop o (bits_of bytes) ≡ b ∷ rest
    → At bytes o b rest
unfolding bits_of
bits_of-At [] zero b rest e = cc
bits_of-At [] (suc o) b rest e = cc
bits_of-At (x ∷ xs) zero b rest e =
    in_first (omega arith) (head-eq_of_cons-eq e) (tail-eq_of_cons-eq e)
bits_of-At (x ∷ xs) (suc zero) b rest e =
    in_first (omega arith) (head-eq_of_cons-eq e) (tail-eq_of_cons-eq e)
bits_of-At (x ∷ xs) (suc (suc zero)) b rest e =
    in_first (omega arith) (head-eq_of_cons-eq e) (tail-eq_of_cons-eq e)
bits_of-At (x ∷ xs) (suc (suc (suc zero))) b rest e =
    in_first (omega arith) (head-eq_of_cons-eq e) (tail-eq_of_cons-eq e)
bits_of-At (x ∷ xs) (suc (suc (suc (suc zero)))) b rest e =
    in_first (omega arith) (head-eq_of_cons-eq e) (tail-eq_of_cons-eq e)
bits_of-At (x ∷ xs) (suc (suc (suc (suc (suc zero))))) b rest e =
    in_first (omega arith) (head-eq_of_cons-eq e) (tail-eq_of_cons-eq e)
bits_of-At (x ∷ xs) (suc (suc (suc (suc (suc (suc zero)))))) b rest e =
    in_first (omega arith) (head-eq_of_cons-eq e) (tail-eq_of_cons-eq e)
bits_of-At (x ∷ xs) (suc (suc (suc (suc (suc (suc (suc zero))))))) b rest e =
    in_first (omega arith) (head-eq_of_cons-eq e) (tail-eq_of_cons-eq e)
bits_of-At (x ∷ xs) (suc (suc (suc (suc (suc (suc (suc (suc o)))))))) b rest e =
    let q = bits_of-At xs o b rest e in
    record {
      byte = q.byte;
      found = subst (λ i. get_elem? (x ∷ xs) i ≡ some q.byte) (eighth_after o) q.found;
      is_bit = subst (λ i. has_bit (7 - i) q.byte ≡ b) (place_after o) q.is_bit;
      left = q.left;
      within = omega (arith, q.within);
    }

advance : RbspBitReader → RbspBitReader
advance r = record r { bit_offset = suc r.bit_offset }

bit_at :
    (r : RbspBitReader) (byte : ℕ) (b : Bool)
    → get_elem? r.bytes (r.bit_offset / 8) ≡ some byte
    → has_bit (7 - r.bit_offset % 8) byte ≡ b
    → r.bit_offset + 1 ≤ u64_max
    → bit r ≡ ok (b, advance r)
unfolding bit advance
bit_at r byte b found is fits =
    rw (found, is) (ap (λ n. ok (b, record r { bit_offset = n })) (omega arith))

pub bit-Reads : (b : Bool) → Reads bit (b ∷ []) b
unfolding unread advance
bit-Reads b = record {
  run = λ r rest room e.
      let q = bits_of-At r.bytes r.bit_offset b rest e in
      (advance r, bit_at r q.byte b q.found q.is_bit (omega (arith, q.within)), q.left, room);
}

skip_at :
    (r : RbspBitReader) (n : ℕ)
    → HasRoom r
    → r.bit_offset + n ≤ length r.bytes * 8
    → skip n r ≡ ok (tt, record r { bit_offset = r.bit_offset + n })
unfolding skip
skip_at r n room le = ground arith

-- Bits that are passed one at a time.
record Past (bytes : List ℕ) (o n : ℕ) (rest : List Bool) : Type 0 where
  left : drop (o + n) (bits_of bytes) ≡ rest
  within : o + n ≤ length bytes * 8

pass :
    (bytes : List ℕ) (b : Bool) (bs rest : List Bool) (o : ℕ)
    → drop o (bits_of bytes) ≡ (b ∷ bs) ++ rest
    → Past bytes o (length (b ∷ bs)) rest
pass bytes b [] rest o e =
    let q = bits_of-At bytes o b rest e in
    let one : suc o ≡ o + length (b ∷ []) = omega arith in
    record {
      left = subst (λ n. drop n (bits_of bytes) ≡ rest) one q.left;
      within = omega (arith, q.within);
    }
pass bytes b (c ∷ cs) rest o e =
    let q = bits_of-At bytes o b ((c ∷ cs) ++ rest) e in
    let p = pass bytes c cs rest (suc o) q.left in
    let more : suc o + length (c ∷ cs) ≡ o + length (b ∷ c ∷ cs) = omega arith in
    record {
      left = subst (λ n. drop n (bits_of bytes) ≡ rest) more p.left;
      within = omega (arith, p.within);
    }

pub skip-Reads : (b : Bool) (bs : List Bool) → Reads (skip (length (b ∷ bs))) (b ∷ bs) tt
unfolding unread
skip-Reads b bs = record {
  run = λ r rest room e.
      let p = pass r.bytes b bs rest r.bit_offset e in
      (
        record r { bit_offset = r.bit_offset + length (b ∷ bs) },
        skip_at r _ room p.within,
        p.left,
        room,
      );
}
