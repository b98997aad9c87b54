-- ===== src/FullIo/Complete.antt =====
-- `readn` reads all of the bytes asked for.
use apue_learning.Common.{
  ℕ, zero, suc, ◌+◌, ◌-◌, ◌<◌, ◌≤◌, ◌≡◌, refl, ap, ◌∙◌, sym, List, [], ◌∷◌, ◌++◌, Option, none,
  some, ◌==◌, if◌then◌else◌, length, take, drop, All, arith, length-drop, append_assoc, append-nil,
  suc-add, drop-drop, take_all, Bool-cases, inl, inr, ==_iff,
}
use apue_learning.FullIo.{readn, writen, readn_loop, Moved, moved, stop}

-- A call that moves at least one byte.
abbrev pub Progress : Option ℕ → Type 0
Progress none = ⊥
Progress (some limit) = 0 < limit

take-nil : (n : ℕ) → take {A = ℕ} n [] ≡ []
take-nil zero = refl
take-nil (suc n) = refl

drop-all : (s : List ℕ) → drop (length s) s ≡ []
drop-all [] = refl
drop-all (c ∷ s) = drop-all s

take-add : (k m : ℕ) (s : List ℕ) → take (k + m) s ≡ take k s ++ take m (drop k s)
take-add zero m s = ap (λ j. take j s) (omega arith)
take-add (suc k) m [] = ap (λ j. take j []) (suc-add k m) ∙ sym (take-nil m)
take-add (suc k) m (c ∷ s) =
    ap (λ j. take j (c ∷ s)) (suc-add k m) ∙ ap (λ l. c ∷ l) (take-add k m s)

-- What a complete transfer of `left` more bytes gives.
abbrev pub complete : ℕ → ℕ → List ℕ → List ℕ → Moved
complete n left got src = record {
  result = some (n - (left - length src));
  bytes = got ++ take left src;
  rest = drop left src;
}

complete_step :
    (n left k : ℕ) (got src : List ℕ)
    → k ≤ left
    → k ≤ length src
    → complete n (left - k) (got ++ take k src) (drop k src) ≡ complete n left got src
complete_step n left k got src h h' =
    ap
      (λ r. record {
        result = some r;
        bytes = (got ++ take k src) ++ take (left - k) (drop k src);
        rest = drop (left - k) (drop k src);
      })
      (omega (arith, length-drop k src))
    ∙ ap
        (λ b. record {
          result = some (n - (left - length src));
          bytes = b;
          rest = drop (left - k) (drop k src);
        })
        (append_assoc got (take k src) (take (left - k) (drop k src))
          ∙ ap (λ t. got ++ t)
              (sym (take-add k (left - k) src) ∙ ap (λ j. take j src) (omega arith)))
    ∙ ap
        (λ r. record {
          result = some (n - (left - length src));
          bytes = got ++ take left src;
          rest = r;
        })
        (drop-drop k (left - k) src ∙ ap (λ j. drop j src) (omega arith))

moved_le : (left limit : ℕ) (src : List ℕ) → moved left limit src ≤ left
moved_le left limit src = ground arith

moved_le_length : (left limit : ℕ) (src : List ℕ) → moved left limit src ≤ length src
moved_le_length left limit src = ground arith

-- A call that moves nothing is at the end of the source.
moved_zero : (left limit : ℕ) (src : List ℕ) → 0 < limit → moved (suc left) limit src ≡ 0 → src ≡ []
moved_zero left limit [] h e = refl
moved_zero left limit (c ∷ src) h e = absurd (ground arith)

minus_zero : (a : ℕ) → a ≡ a - 0
minus_zero a = omega arith

readn_step :
    (ls : List (Option ℕ)) (n left limit : ℕ) (got src : List ℕ)
    → 0 < limit
    → ((k : ℕ)
        → 0 < k
        → k ≤ suc left
        → readn_loop ls n (suc left - k) (got ++ take k src) (drop k src)
          ≡ some (complete n (suc left - k) (got ++ take k src) (drop k src)))
    → readn_loop (some limit ∷ ls) n (suc left) got src ≡ some (complete n (suc left) got src)
unfolding readn_loop
readn_step ls n left limit got src pos ih = elim (Bool-cases (moved (suc left) limit src == 0)) [
  | inl e ↦
      let z : src ≡ [] =
        moved_zero left limit src pos ((==_iff (moved (suc left) limit src) 0).0 e) in
      ap (λ b. if b then some (stop n (suc left) got src) else more) e
      ∙ ap (λ s. some (stop n (suc left) got s)) z
      ∙ ap (λ g. some (record { result = some (n - suc left); bytes = g; rest = [] }))
          (sym (append-nil got))
      ∙ ap (λ r. some (record { result = some (n - r); bytes = got ++ []; rest = [] }))
          (minus_zero (suc left))
      ∙ ap (λ s. some (complete n (suc left) got s)) (sym z)
  | inr e ↦
      ap (λ b. if b then some (stop n (suc left) got src) else more) e
      ∙ ih (moved (suc left) limit src) (ground (arith, e)) (moved_le (suc left) limit src)
      ∙ ap some (
          complete_step n (suc left) (moved (suc left) limit src) got src
            (moved_le (suc left) limit src) (moved_le_length (suc left) limit src))
]
  where
    more : Option Moved
    more =
        readn_loop ls n (suc left - moved (suc left) limit src)
          (got ++ take (moved (suc left) limit src) src) (drop (moved (suc left) limit src) src)

readn_loop-complete :
    (ls : List (Option ℕ)) (n left : ℕ) (got src : List ℕ)
    → All Progress ls
    → left < length ls
    → readn_loop ls n left got src ≡ some (complete n left got src)
unfolding readn_loop
readn_loop-complete ls n zero got src p h =
    ap (λ g. some (record { result = some (n - 0); bytes = g; rest = src })) (sym (append-nil got))
    ∙ ap (λ r. some (record { result = some r; bytes = got ++ []; rest = src })) (omega arith)
readn_loop-complete [] n (suc left) got src p h = absurd (omega arith)
readn_loop-complete (none ∷ ls) n (suc left) got src p h = absurd p.0
readn_loop-complete (some limit ∷ ls) n (suc left) got src p h =
    readn_step ls n left limit got src p.0 (λ k kpos kle.
      readn_loop-complete ls n (suc left - k) (got ++ take k src) (drop k src) p.1 (omega arith))

-- When no call of `read` fails and each is allowed at least one byte, `readn` returns after at most
-- one call for each byte and one more: it has read the next `n` bytes of the stream, or all of them
-- if the stream ends before, and returns their number.
pub readn_complete :
    (limits : List (Option ℕ)) (n : ℕ) (src : List ℕ)
    → All Progress limits
    → n < length limits
    → readn limits n src
      ≡ some
          (record { result = some (n - (n - length src)); bytes = take n src; rest = drop n src })
unfolding readn
readn_complete limits n src p h = readn_loop-complete limits n n [] src p h

-- When no call of `write` fails and each takes at least one byte, `writen` returns after at most one
-- call for each byte and one more: it has written the whole buffer and returns its length.
pub writen_complete :
    (limits : List (Option ℕ)) (buffer : List ℕ)
    → All Progress limits
    → length buffer < length limits
    → writen limits buffer
      ≡ some (record { result = some (length buffer); bytes = buffer; rest = [] })
unfolding writen
writen_complete limits buffer p h =
    readn_loop-complete limits (length buffer) (length buffer) [] buffer p h
    ∙ ap
        (λ r. some (record {
          result = some r;
          bytes = take (length buffer) buffer;
          rest = drop (length buffer) buffer;
        }))
        (omega arith)
    ∙ ap
        (λ b.
          some (record {
            result = some (length buffer);
            bytes = b;
            rest = drop (length buffer) buffer;
          }))
        (take_all buffer)
    ∙ ap (λ r. some (record { result = some (length buffer); bytes = buffer; rest = r }))
        (drop-all buffer)
