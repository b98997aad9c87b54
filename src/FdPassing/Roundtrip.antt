-- ===== src/FdPassing/Roundtrip.antt =====
-- What `send_fd` and `send_err` send is what `recv_fd` receives, however the text is cut into pieces.
use apue_learning.Common.{
  ℕ, zero, suc, ◌+◌, ◌<◌, ◌≡◌, refl, ap, ◌∙◌, sym, Bool, true, List, [], ◌∷◌, ◌++◌, Option, none,
  some, ℤ, pos, negsuc, All, append_assoc, map, length, arith,
}
use apue_learning.CString.Decimal.{Ne}
use apue_learning.FdPassing.{
  Message, send_fd, send_err, status_byte, negative, scan, plain, final, push_text, recv_fd,
  Received, descriptor, error_status, finished, finish, on_scan, on_bytes,
}

scan-plain : (s : List ℕ) → All (Ne 0) s → scan s ≡ plain
unfolding scan
scan-plain [] h = refl
scan-plain (c ∷ s) (k, h) = rw k (ap (push_text c) (scan-plain s h))

scan-final : (s : List ℕ) (st : ℕ) → All (Ne 0) s → scan (s ++ 0 ∷ st ∷ []) ≡ final s st
unfolding scan
scan-final [] st h = refl
scan-final (c ∷ s) st (k, h) = rw k (ap (push_text c) (scan-final s st h))

abbrev pub all : List ℕ → Bool
all _ = true

-- A piece of a text: some bytes, none of them null.
pub record IsPiece (s : List ℕ) : Type 0 where
  pub nonempty : 0 < length s
  pub clean : All (Ne 0) s

abbrev pub text_message : List ℕ → Option Message
text_message s = some (record { bytes = s; control = none })

abbrev pub concat : List (List ℕ) → List ℕ
concat [] = []
concat (p ∷ ps) = p ++ concat ps

abbrev pub prepend : List ℕ → Message → Message
prepend t m = record { bytes = t ++ m.bytes; control = m.control }

-- What the receiver gets: the descriptor, or minus the status byte.
abbrev pub outcome : ℤ → Received
outcome (pos fd) = descriptor fd
outcome (negsuc n) = error_status (status_byte (n + 1))

status_byte_pos : (n : ℕ) → 0 < status_byte n
unfolding status_byte
status_byte_pos n = ground arith

finished_error : (st : ℕ) (c : Option ℕ) → 0 < st → finished st c ≡ error_status st
finished_error zero c h = absurd (omega arith)
finished_error (suc st) c h = refl

-- The scan of the last message ends in a status, and the control data fit to it.
last_status :
    (fd : ℤ) (t : List ℕ)
    → All (Ne 0) t
    → (st : ℕ) × (scan (t ++ (send_fd fd).bytes) ≡ final t st)
      × (finished st ((send_fd fd).control) ≡ outcome fd)
unfolding send_fd
last_status (pos fd) t h = (zero, scan-final t zero h, refl)
last_status (negsuc n) t h = (
  status_byte (n + 1),
  scan-final t (status_byte (n + 1)) h,
  finished_error (status_byte (n + 1)) none (status_byte_pos (n + 1)),
)

outcome_kept : (out t : List ℕ) (fd : ℤ) → finish all out t (outcome fd) ≡ (out ++ t, outcome fd)
outcome_kept out [] (pos fd) = refl
outcome_kept out [] (negsuc n) = refl
outcome_kept out (c ∷ t) (pos fd) = refl
outcome_kept out (c ∷ t) (negsuc n) = refl

some_bytes :
    (out t : List ℕ) (fd : ℤ) (r : List ℕ × Received) → on_bytes out (t ++ (send_fd fd).bytes) r ≡ r
unfolding send_fd
some_bytes out [] (pos fd) r = refl
some_bytes out [] (negsuc n) r = refl
some_bytes out (c ∷ t) fd r = refl

recv_last :
    (out t : List ℕ) (fd : ℤ)
    → All (Ne 0) t
    → recv_fd all out (some (prepend t (send_fd fd)) ∷ []) ≡ (out ++ t, outcome fd)
unfolding recv_fd
recv_last out t fd h =
    let (st, e, f) = last_status fd t h in
    let rest = recv_fd all (out ++ (t ++ (send_fd fd).bytes)) [] in
    some_bytes out t fd
      (on_scan all out (prepend t (send_fd fd)) (scan (t ++ (send_fd fd).bytes)) rest)
    ∙ ap (λ s. on_scan all out (prepend t (send_fd fd)) s rest) e
    ∙ ap (finish all out t) f
    ∙ outcome_kept out t fd

recv_piece :
    (out p : List ℕ) (ms : List (Option Message))
    → IsPiece p
    → recv_fd all out (text_message p ∷ ms) ≡ recv_fd all (out ++ p) ms
unfolding recv_fd
recv_piece out [] ms h = absurd (omega (arith, h.nonempty))
recv_piece out (c ∷ p) ms h =
    ap
      (λ s.
        on_scan all out (record { bytes = c ∷ p; control = none }) s
          (recv_fd all (out ++ c ∷ p) ms))
      (scan-plain (c ∷ p) h.clean)

-- Whatever non-empty pieces without null bytes come first, and whatever text without null bytes
-- the last message has in front, `recv_fd` with a function that takes every text passes on all of
-- the text, and returns the descriptor that `send_fd` was given, or minus the status byte if that
-- was negative.
pub recv_fd-send_fd :
    (fd : ℤ) (out : List ℕ) (ps : List (List ℕ)) (t : List ℕ)
    → All IsPiece ps
    → All (Ne 0) t
    → recv_fd all out (map text_message ps ++ some (prepend t (send_fd fd)) ∷ [])
      ≡ (out ++ (concat ps ++ t), outcome fd)
recv_fd-send_fd fd out [] t hp ht = recv_last out t fd ht
recv_fd-send_fd fd out (p ∷ ps) t hp ht =
    recv_piece out p (map text_message ps ++ some (prepend t (send_fd fd)) ∷ []) hp.0
    ∙ recv_fd-send_fd fd (out ++ p) ps t hp.1 ht
    ∙ ap (λ o. (o, outcome fd))
        (append_assoc out p (concat ps ++ t)
          ∙ ap (λ s. out ++ s) (sym (append_assoc p (concat ps) t)))

-- When the text that `send_err` sends reaches the receiver in non-empty pieces without null bytes,
-- the last of them perhaps together with the final data, `recv_fd` passes on just that text and
-- returns minus the status byte of the error code, which is -1 for a code that is not negative.
pub recv_fd-send_err :
    (errcode : ℤ) (msg : List ℕ) (ps : List (List ℕ)) (t : List ℕ)
    → All IsPiece ps
    → All (Ne 0) t
    → (send_err errcode msg).0 ≡ concat ps ++ t
    → recv_fd all [] (map text_message ps ++ some (prepend t ((send_err errcode msg).1)) ∷ [])
      ≡ (msg, outcome (negative errcode))
unfolding send_err
recv_fd-send_err errcode msg ps t hp ht e =
    recv_fd-send_fd (negative errcode) [] ps t hp ht
    ∙ ap (λ s. (s, outcome (negative errcode))) (sym e)
