-- ===== src/Box/Exchange/Login.antt =====
-- MP2: the client's `login` with the answer of the server's `login`.
use mathlib.Core.Option.{some-injective}
use sp.Base.{
  ℕ, ◌<◌, lt→ltb, ◌>>=◌, ◌≤◌, ◌≡◌, ◌↔◌, refl, sym, ap, ◌∙◌, inl, inr, true, none, some, List, [],
  ◌∷◌, ◌++◌, append-nil, arith, Bytes, bytes_eq, bytes_eq_refl, bytes_eq_sound, if◌then◌else◌,
  length, drop, length-append, length-drop, drop-length, Bool-cases, Option-cases,
}
use sp.Box.Posix.{Posix}
use sp.Box.Protocol.{req_login, op_login, status_ok, status_fail, Response}
use sp.Box.Config.{overlay}
use sp.Box.Account.{get_account_info}
use sp.Box.Account.Lookup.{AreAccounts, account_file, find_account, get_account_info-file}
use sp.Box.Server.{Server, Setup, login, entered, answer, dispatch, res, get_user_homedir}
use sp.Box.Client.{login as client_login, is_ok, is_op}
use sp.Box.Exchange.{served}
use sp.Box.Exchange.File.{served-one}

module _ (p : Posix) where
  login-cases :
      (cfg : Setup) (fd : ℕ) (s : Server p.Fs) (all : List (Bytes × Bytes)) (user passwd : Bytes)
      → AreAccounts all
      → cfg.accounts ≡ some (account_file all)
      → (r : Response) × ((login p cfg fd s user (p.md5 passwd)).sent ≡ s.sent ++ r ∷ [])
        × ((is_ok op_login r ≡ true) ↔ (
            (found : Bytes) × (find_account all user ≡ some found) × (p.md5 passwd ≡ p.md5 found)))
        × ((login p cfg fd s user (p.md5 passwd)).client
            ≡ (if is_ok op_login r then some user else s.client))
  unfolding login is_ok is_op res
  login-cases cfg fd s all user passwd h a = elim (Option-cases (find_account all user)) [
    | inl e ↦
        let g : get_account_info p.md5 cfg.accounts user ≡ none =
          rw (a, get_account_info-file p.md5 all user h, e) refl in
        (
          res op_login status_fail,
          rw (login, g, answer) refl,
          ((λ x. absurd (cc)), (λ x. absurd (cc (sym e ∙ x.1)))),
          rw (login, g, answer) refl,
        )
    | inr (found, e) ↦
        let g : get_account_info p.md5 cfg.accounts user ≡ some (p.md5 found) =
          rw (a, get_account_info-file p.md5 all user h, e) refl in
        elim (Bool-cases (bytes_eq (p.md5 passwd) (p.md5 found))) [
          | inl x ↦ (
            record { op = op_login; status = status_ok; client_id = fd },
            rw (login, g, x, entered, answer) refl,
            ((λ y. (found, e, bytes_eq_sound (p.md5 passwd) (p.md5 found) x)), (λ y. refl)),
            rw (login, g, x, entered, answer) refl,
          )
          | inr x ↦ (
            res op_login status_fail,
            rw (login, g, x, answer) refl,
            (
              (λ y. absurd (cc)),
              (λ y.
                  let same : found ≡ y.0 = some-injective _ _ (sym e ∙ y.1) in
                  let z : bytes_eq (p.md5 passwd) (p.md5 found) ≡ true =
                    rw (y.2, same) (bytes_eq_refl (p.md5 y.0)) in
                  absurd (cc)),
            ),
            rw (login, g, x, answer) refl,
          )
        ]
  ]

  -- For an account file of lines `user,password`, and a name and a password of less than 30 bytes, the
  -- client's `login` has one response. It succeeds
  -- exactly when the digest of the client's password is that of the password of the first account of
  -- the user's name, and exactly then the server notes the user as the connection's client.
  pub login_iff :
      (cfg : Setup) (fd : ℕ) (s : Server p.Fs) (all : List (Bytes × Bytes)) (user passwd : Bytes)
      → AreAccounts all
      → cfg.accounts ≡ some (account_file all)
      → length user < 30
      → length passwd < 30
      → (s' : Server p.Fs) × (r : Response) × ((client_login p user passwd >>= served p cfg fd s)
          ≡ some s')
        × (s'.sent ≡ r ∷ [])
        × ((is_ok op_login r ≡ true) ↔ (
            (found : Bytes) × (find_account all user ≡ some found) × (p.md5 passwd ≡ p.md5 found)))
        × (s'.client ≡ (if is_ok op_login r then some user else s.client))
  unfolding client_login dispatch
  login_iff cfg fd s all user passwd h a l n =
      let x = lt→ltb (length user) 30 l in
      let y = lt→ltb (length passwd) 30 n in
      let t : Server p.Fs = record s { sent = [] } in
      let (r, e, i, c) = login-cases cfg fd t all user passwd h a in
      (
        login p cfg fd t user (p.md5 passwd),
        r,
        rw (x, y) (served-one p cfg fd s _ (req_login user (p.md5 passwd)) [] (rw x refl)),
        e,
        i,
        c,
      )

  overlay_iff : (buffer val : Bytes) → (overlay buffer val ≡ val) ↔ (length buffer ≤ length val)
  unfolding overlay
  overlay_iff buffer val = (
    (λ e.
        let l = ap length e in
        let a = length-append val (drop (length val) buffer) in
        let d = length-drop (length val) buffer in omega (arith, l, a, d)),
    (λ l. rw (drop-length (length val) buffer l) (append-nil val)),
  )

  -- When the account is found and the digests agree, the directory that the server's `login` goes to
  -- is the user's home exactly when the directory before is not longer than it.
  pub login_home_iff :
      (cfg : Setup) (fd : ℕ) (s : Server p.Fs) (user hash : Bytes)
      → get_account_info p.md5 cfg.accounts user ≡ some hash
      → ((login p cfg fd s user hash).sync_path ≡ get_user_homedir cfg user)
        ↔ (length s.sync_path ≤ length (get_user_homedir cfg user))
  unfolding login overlay
  login_home_iff cfg fd s user hash g =
      let e : (login p cfg fd s user hash).sync_path
          ≡ overlay s.sync_path (get_user_homedir cfg user) =
        rw (login, g, bytes_eq_refl hash, entered, answer) refl in
      let (to, from) = overlay_iff s.sync_path (get_user_homedir cfg user) in
      ((λ x. to (sym e ∙ x)), (λ x. e ∙ from x))
