-- ===== src/Opend/Request.antt =====
-- What the server does with a request (ipc2/opend/request.c, ipc2/opend/cliargs.c) and the request
-- that the client's library sends (ipc2/open/open.c). `sys_open` stands for open(2): it gives a descriptor
-- or the text of `strerror(errno)`.
use apue_learning.Common.{
  ℕ, zero, subst, append_assoc, length-append, ◌≡◌, refl, ap, ◌∙◌, sym, List, [], ◌∷◌, ◌++◌, Option,
  none, some, ℤ, pos, bytes_eq, All, arith, All-append, length, ◌-◌, ◌<◌, get_elem?, if◌then◌else◌,
}
use apue_learning.CString.{c_str, atol, print_dec}
use apue_learning.CString.Decimal.{
  atol-print_dec, digits-print_dec, Ne, IsDigit, length-print_dec_pos,
}
use apue_learning.CString.Clean.{print_dec-clean}
use apue_learning.Opend.Args.{buf_args, is_white, Solid, three_words}

-- `errmsg`, which is static: what was put there last.
pub data ErrMsg : Type 0 where
  empty : ErrMsg
  not_terminated : (uid : ℕ) (buf : List ℕ) → ErrMsg
  usage : ErrMsg
  cant_open : (path : List ℕ) (why : List ℕ) → ErrMsg

-- What the client is sent: a descriptor or an error with status -1.
pub data Reply : Type 0 where
  descriptor : ℕ → Reply
  error : ErrMsg → Reply

-- A result of `open`.
pub data Opened : Type 0 where
  opened : ℕ → Opened
  failed : List ℕ → Opened

abbrev cl_open : List ℕ
cl_open = b'o' ∷ b'p' ∷ b'e' ∷ b'n' ∷ []

-- `cli_args`: the path and the flags, or `none` for the -1 after the usage message.
unfoldable pub cli_args : List (List ℕ) → Option (List ℕ × ℤ)
unfolding atol
cli_args (cmd ∷ path ∷ flags ∷ []) = if bytes_eq cmd cl_open then some (path, atol flags) else none
cli_args _ = none

-- `cli_args` puts the usage message in `errmsg`; `buf_args` itself does not touch it.
unfoldable pub seen_args : List (List ℕ) → Option (Option (List ℕ × ℤ))
unfolding cli_args
seen_args argv = some (cli_args argv)

module _ (sys_open : List ℕ → ℤ → Opened) where
  abbrev pub open_file : ErrMsg → List ℕ → Opened → ErrMsg × Reply
  open_file m path (opened fd) = (m, descriptor fd)
  open_file m path (failed why) = (cant_open path why, error (cant_open path why))

  abbrev pub with_args : ErrMsg → Option (Option (List ℕ × ℤ)) → ErrMsg × Reply
  with_args m none = (m, error m)
  with_args m (some none) = (usage, error usage)
  with_args m (some (some (path, oflag))) = open_file m path (sys_open path oflag)

  abbrev pub by_last : ErrMsg → ℕ → List ℕ → Option ℕ → ErrMsg × Reply
  by_last m uid buf (some zero) = with_args m (buf_args seen_args (c_str buf))
  by_last m uid buf _ = (not_terminated uid buf, error (not_terminated uid buf))

  -- `buf` is the bytes that were read, at least one.
  unfoldable pub handle_request : ErrMsg → (uid : ℕ) → List ℕ → ErrMsg × Reply
  unfolding buf_args seen_args
  handle_request m uid buf = by_last m uid buf (get_elem? buf (length buf - 1))

-- The bytes that `csopen` writes for a flag word that is not negative.
unfoldable pub csopen : List ℕ → ℕ → List ℕ
unfolding print_dec
csopen name oflag = cl_open ++ 32 ∷ (name ++ 32 ∷ (print_dec oflag ++ 0 ∷ []))

Solid-digit : (c : ℕ) → IsDigit c → Solid c
unfolding is_white
Solid-digit c h = ground (arith, h.low, h.high)

Solid-digits : (s : List ℕ) → All IsDigit s → All Solid s
Solid-digits [] h = tt
Solid-digits (c ∷ s) (k, h) = (Solid-digit c k, Solid-digits s h)

split_first : (s : List ℕ) → 0 < length s → (c : ℕ) × (cs : List ℕ) × (s ≡ c ∷ cs)
split_first [] h = absurd (omega arith)
split_first (c ∷ cs) h = (c, cs, refl)

get_at_end : (s : List ℕ) (c : ℕ) → get_elem? (s ++ c ∷ []) (length s) ≡ some c
get_at_end [] c = refl
get_at_end (x ∷ s) c = get_at_end s c

get_last : (s : List ℕ) (c : ℕ) → get_elem? (s ++ c ∷ []) (length (s ++ c ∷ []) - 1) ≡ some c
get_last s c =
    ap (get_elem? (s ++ c ∷ [])) (omega (arith, length-append s (c ∷ []))) ∙ get_at_end s c

c_str_end : (s : List ℕ) → All (Ne 0) s → c_str (s ++ 0 ∷ []) ≡ s
unfolding c_str
c_str_end [] h = refl
c_str_end (c ∷ s) (k, h) = rw (k, c_str) (rw (c_str_end s h) refl)

-- A name with no white space and no null byte.
pub record IsName (name : List ℕ) : Type 0 where
  pub solid : All Solid name
  pub clean : All (Ne 0) name
  pub nonempty : 0 < length name

cl_open-Solid : All Solid cl_open
unfolding is_white
cl_open-Solid = (refl, (refl, (refl, (refl, tt))))

module _ (sys_open : List ℕ → ℤ → Opened) where
  terminated :
      (m : ErrMsg) (uid : ℕ) (s : List ℕ)
      → All (Ne 0) s
      → handle_request sys_open m uid (s ++ 0 ∷ []) ≡ with_args sys_open m (buf_args seen_args s)
  unfolding handle_request
  terminated m uid s h =
      ap (by_last sys_open m uid (s ++ 0 ∷ [])) (get_last s 0)
      ∙ ap (λ t. with_args sys_open m (buf_args seen_args t)) (c_str_end s h)

  words_opened :
      (a : ℕ) (xs : List ℕ) (c : ℕ) (cs : List ℕ) (oflag : ℕ) (m : ErrMsg)
      → All Solid (a ∷ xs)
      → All Solid (c ∷ cs)
      → atol (c ∷ cs) ≡ pos oflag
      → with_args sys_open m (buf_args seen_args (cl_open ++ 32 ∷ ((a ∷ xs) ++ 32 ∷ c ∷ cs)))
        ≡ open_file sys_open m (a ∷ xs) (sys_open (a ∷ xs) (pos oflag))
  unfolding seen_args cli_args
  words_opened a xs c cs oflag m ha hc e = ap (with_args sys_open m) (
      three_words seen_args b'o' (b'p' ∷ b'e' ∷ b'n' ∷ []) a xs c cs cl_open-Solid ha hc
      ∙ ap (λ z. some (some (a ∷ xs, z))) e)

  cleaned :
      (name : List ℕ) (oflag : ℕ)
      → All (Ne 0) name
      → All (Ne 0) (cl_open ++ 32 ∷ (name ++ 32 ∷ print_dec oflag))
  cleaned name oflag h = (
    refl,
    (
      refl,
      (
        refl,
        (
          refl,
          (refl, All-append (Ne 0) name (32 ∷ print_dec oflag) h (refl, print_dec-clean oflag)),
        ),
      ),
    ),
  )

  -- For a name that is not empty and has neither white space nor a null byte, and a flag word that
  -- is not negative, the server opens exactly that name with those flags when it is given the bytes
  -- that `csopen` writes: it answers with the descriptor, or with the text that says why the name
  -- cannot be opened.
  pub handle_request-csopen :
      (m : ErrMsg) (uid : ℕ) (name : List ℕ) (oflag : ℕ)
      → IsName name
      → handle_request sys_open m uid (csopen name oflag)
        ≡ open_file sys_open m name (sys_open name (pos oflag))
  unfolding csopen
  handle_request-csopen m uid name oflag h =
      let (a, xs, ea) = split_first name h.nonempty in
      let (c, cs, ec) = split_first (print_dec oflag) (length-print_dec_pos oflag) in
      ap (handle_request sys_open m uid)
        (ap (λ t. cl_open ++ 32 ∷ t) (sym (append_assoc name (32 ∷ print_dec oflag) (0 ∷ []))))
      ∙ terminated m uid (cl_open ++ 32 ∷ (name ++ 32 ∷ print_dec oflag))
          (cleaned name oflag h.clean)
      ∙ ap
          (λ n.
            with_args sys_open m (buf_args seen_args (cl_open ++ 32 ∷ (n ++ 32 ∷ print_dec oflag))))
          ea
      ∙ ap (λ d. with_args sys_open m (buf_args seen_args (cl_open ++ 32 ∷ ((a ∷ xs) ++ 32 ∷ d))))
          ec
      ∙ words_opened a xs c cs oflag m (subst (All Solid) ea h.solid)
          (subst (All Solid) ec (Solid-digits (print_dec oflag) (digits-print_dec oflag)))
          (ap atol (sym ec) ∙ atol-print_dec oflag)
      ∙ ap (λ n. open_file sys_open m n (sys_open n (pos oflag))) (sym ea)
