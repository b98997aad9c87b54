-- ===== src/FdPassing/Tests.antt =====
-- The protocol at concrete messages.
use apue_learning.Common.{◌≡◌, refl, [], ◌∷◌, ◌++◌, some, map, pos, negsuc, arith, none}
use apue_learning.FdPassing.{
  send_fd, send_err, recv_fd, descriptor, error_status, dumped, status_byte,
}
use apue_learning.FdPassing.Roundtrip.{
  IsPiece, all, text_message, prepend, recv_fd-send_fd, recv_fd-send_err,
}

ok : IsPiece (b'o' ∷ b'k' ∷ [])
ok = record { nonempty = omega arith; clean = (refl, (refl, tt)) }

recv_fd-send_fd_example :
    recv_fd all []
      (map text_message ((b'o' ∷ b'k' ∷ []) ∷ []) ++ some (prepend [] (send_fd (pos 7))) ∷ [])
    ≡ (b'o' ∷ b'k' ∷ [], descriptor 7)
recv_fd-send_fd_example = recv_fd-send_fd (pos 7) [] ((b'o' ∷ b'k' ∷ []) ∷ []) [] (ok, tt) tt

sent : (send_err (negsuc 2) (b'o' ∷ b'k' ∷ b'!' ∷ [])).0 ≡ b'o' ∷ b'k' ∷ b'!' ∷ []
unfolding send_err
sent = refl

recv_fd-send_err_example :
    recv_fd all [] (
      map text_message ((b'o' ∷ b'k' ∷ []) ∷ [])
      ++ some (prepend (b'!' ∷ []) ((send_err (negsuc 2) (b'o' ∷ b'k' ∷ b'!' ∷ [])).1)) ∷ [])
    ≡ (b'o' ∷ b'k' ∷ b'!' ∷ [], error_status 3)
unfolding status_byte
recv_fd-send_err_example =
    recv_fd-send_err (negsuc 2) (b'o' ∷ b'k' ∷ b'!' ∷ []) ((b'o' ∷ b'k' ∷ []) ∷ []) (b'!' ∷ [])
      (ok, tt) (refl, tt) sent

-- A status of 256 is sent as 1.
whole_bytes : status_byte 256 ≡ 1
unfolding status_byte
whole_bytes = refl

-- A final status of 0 without a descriptor ends the process.
missing_descriptor :
    recv_fd all [] (some (record { bytes = 0 ∷ 0 ∷ []; control = none }) ∷ []) ≡ ([], dumped)
unfolding recv_fd
missing_descriptor = refl
