-- ===== src/FdPassing.antt =====
-- Passing descriptors over a socket: lib/sendfd.c, lib/senderr.c and lib/recvfd.c. A message is its
-- bytes and the descriptor in its control data, if any.
pub mod Roundtrip
mod Tests
use apue_learning.Common.{
  ℕ, zero, suc, ◌+◌, ◌%◌, Bool, true, false, List, [], ◌∷◌, ◌++◌, Option, none, some, ℤ, pos,
  negsuc, ◌==◌, if◌then◌else◌,
}

pub record Message : Type 0 where
  pub bytes : List ℕ
  pub control : Option ℕ

-- The status byte: `-fd_to_send` as a `char`, and 1 where that would be 0.
unfoldable pub status_byte : ℕ → ℕ
status_byte n = if n % 256 == 0 then 1 else n % 256

-- `send_fd`: the message that it sends; `negsuc n` is -(n + 1).
unfoldable pub send_fd : ℤ → Message
unfolding status_byte
send_fd (pos fd) = record { bytes = 0 ∷ 0 ∷ []; control = some fd }
send_fd (negsuc n) = record { bytes = 0 ∷ status_byte (n + 1) ∷ []; control = none }

abbrev pub negative : ℤ → ℤ
negative (pos n) = negsuc 0
negative (negsuc n) = negsuc n

-- `send_err`: the text that `writen` sends, and the last message.
unfoldable pub send_err : ℤ → List ℕ → List ℕ × Message
unfolding send_fd
send_err errcode msg = (msg, send_fd (negative errcode))

-- What the scan of a buffer finds: text only, text and the final status, or a null byte elsewhere.
pub data Scan : Type 0 where
  plain : Scan
  final : (text : List ℕ) (status : ℕ) → Scan
  malformed : Scan

abbrev pub push_text : ℕ → Scan → Scan
push_text c plain = plain
push_text c (final text status) = final (c ∷ text) status
push_text c malformed = malformed

-- Behind a null byte: it must be next to last.
abbrev pub behind_null : List ℕ → Scan
behind_null [] = malformed
behind_null (status ∷ []) = final [] status
behind_null (_ ∷ _ ∷ _) = malformed

unfoldable pub scan : List ℕ → Scan
scan [] = plain
scan (c ∷ rest) = let more = scan rest in if c == 0 then behind_null rest else push_text c more

-- How `recv_fd` ends: a descriptor, minus a status, -1, the end of the process; `waiting` if
-- the messages given are used up.
pub data Received : Type 0 where
  descriptor : ℕ → Received
  error_status : ℕ → Received
  failed : Received
  dumped : Received
  waiting : Received

-- `userfunc` takes all of a text or not; no text is not passed on.
abbrev pub accepted : (List ℕ → Bool) → List ℕ → Bool
accepted userfunc [] = true
accepted userfunc (c ∷ cs) = userfunc (c ∷ cs)

-- The return value behind the final data.
abbrev pub finished : ℕ → Option ℕ → Received
finished (suc status) control = error_status (suc status)
finished zero (some fd) = descriptor fd
finished zero none = dumped

abbrev pub finish : (List ℕ → Bool) → List ℕ → List ℕ → Received → List ℕ × Received
finish userfunc out text dumped = (out, dumped)
finish userfunc out text r = (out ++ text, if accepted userfunc text then r else failed)

abbrev pub on_scan :
    (List ℕ → Bool) → List ℕ → Message → Scan → List ℕ × Received → List ℕ × Received
on_scan userfunc out m malformed rest = (out, dumped)
on_scan userfunc out m plain rest =
    if accepted userfunc m.bytes then rest else (out ++ m.bytes, failed)
on_scan userfunc out m (final text status) rest =
    finish userfunc out text (finished status m.control)

abbrev pub on_bytes : List ℕ → List ℕ → List ℕ × Received → List ℕ × Received
on_bytes out [] r = (out, failed)
on_bytes out (c ∷ cs) r = r

-- `recv_fd`: what was passed to `userfunc`, and the end. A list entry is a result of `recvmsg`, none
-- for -1; no bytes mean that the server closed the connection. The buffer of `recvmsg` has MAXLINE bytes,
-- so that no message of a list that it gives is longer; the model does not ask for that.
unfoldable pub recv_fd : (List ℕ → Bool) → List ℕ → List (Option Message) → List ℕ × Received
unfolding scan
recv_fd userfunc out [] = (out, waiting)
recv_fd userfunc out (none ∷ ms) = (out, failed)
recv_fd userfunc out (some m ∷ ms) =
    let rest = recv_fd userfunc (out ++ m.bytes) ms in
    on_bytes out m.bytes (on_scan userfunc out m (scan m.bytes) rest)
