-- ===== src/Box/Daemon/Guard.antt =====
-- MP5: what a connection can do without a login.
use sp.Base.{
  ℕ, zero, suc, ◌≡◌, refl, sym, ap, subst, ◌∙◌, inl, inr, false, none, some, List, [], ◌∷◌, Bytes,
  bytes_eq, Option-cases,
}
use sp.Box.Account.{get_account_info}
use sp.Box.Server.{Setup}
use sp.Box.Daemon.{
  Host, Request, req_login, req_meta, req_rm, req_end, closed, logout, Connection,
  check_client_and_get_homedir, sync_file, rm_file, login, handle_request, handle_requests, unread,
  unread_path, read_on,
}

module _ (h : Host) where
  -- A login with a password that is not the account's, or another request.
  abbrev pub IsRefused : Setup → Request → Type 0
  IsRefused cfg (req_login user hash) =
      (found : Bytes)
      → get_account_info h.md5 cfg.accounts user ≡ some found
      → bytes_eq hash found ≡ false
  IsRefused cfg _ = Unit

  -- What such a request leaves on a connection without a login.
  abbrev pub left_path : Request → Bytes
  left_path (req_login user hash) = []
  left_path (req_meta q d) = q.path
  left_path (req_rm id path) = path
  left_path req_end = []
  left_path closed = []

  -- The requests that the server reads, those that it finds in the paths of refused ones among them.
  abbrev pub AreRefused : (Bytes → List Request → List Request) → Setup → ℕ → List Request → Type 0
  AreRefused reread cfg zero rs = Unit
  AreRefused reread cfg (suc count) [] = Unit
  AreRefused reread cfg (suc count) (r ∷ rs) =
      IsRefused cfg r × AreRefused reread cfg count (read_on reread (left_path r) rs)

  login_refused :
      (cfg : Setup) (fd : ℕ) (c : Connection h.Fs) (user hash : Bytes)
      → IsRefused cfg (req_login user hash)
      → ((login h cfg fd c user hash).fs ≡ c.fs) × ((login h cfg fd c user hash).client ≡ c.client)
  unfolding login
  login_refused cfg fd c user hash k =
      elim (Option-cases (get_account_info h.md5 cfg.accounts user)) [
        | inl e ↦ (rw (login, e) refl, rw (login, e) refl)
        | inr (found, e) ↦ let b = k found e in (rw (login, e, b) refl, rw (login, e, b) refl)
      ]

  stranger :
      (cfg : Setup) (fd : ℕ) (c : Connection h.Fs) (id : ℕ)
      → c.client ≡ none
      → check_client_and_get_homedir h cfg fd c id ≡ none
  unfolding check_client_and_get_homedir
  stranger cfg fd c id n = rw (check_client_and_get_homedir, n) refl

  unread-left_path :
      (cfg : Setup) (fd : ℕ) (c : Connection h.Fs) (r : Request)
      → c.client ≡ none
      → unread h cfg fd c r ≡ left_path r
  unfolding unread unread_path
  unread-left_path cfg fd c (req_login user hash) n = refl
  unread-left_path cfg fd c (req_meta q d) n =
      ap (λ o. unread_path h o q.path) (stranger cfg fd c q.client_id n)
  unread-left_path cfg fd c (req_rm id path) n =
      ap (λ o. unread_path h o path) (stranger cfg fd c id n)
  unread-left_path cfg fd c req_end n = refl
  unread-left_path cfg fd c closed n = refl

  handle_request_refused :
      (cfg : Setup) (fd : ℕ) (c : Connection h.Fs) (r : Request)
      → c.client ≡ none
      → IsRefused cfg r
      → ((handle_request h cfg fd c r).fs ≡ c.fs) × ((handle_request h cfg fd c r).client ≡ none)
  unfolding handle_request sync_file rm_file logout
  handle_request_refused cfg fd c (req_login user hash) n k =
      let (a, b) = login_refused cfg fd c user hash k in (a, b ∙ n)
  handle_request_refused cfg fd c (req_meta m d) n k =
      let e : sync_file h cfg fd c m d ≡ c = rw (sync_file, stranger cfg fd c m.client_id n) refl in
      (ap (λ x. x.fs) e, ap (λ x. x.client) e ∙ n)
  handle_request_refused cfg fd c (req_rm id path) n k =
      let e : rm_file h cfg fd c id path ≡ c = rw (rm_file, stranger cfg fd c id n) refl in
      (ap (λ x. x.fs) e, ap (λ x. x.client) e ∙ n)
  handle_request_refused cfg fd c req_end n k = (refl, n)
  handle_request_refused cfg fd c closed n k = (refl, refl)

  -- On a connection without a login, whatever requests the server reads, those that it finds in the
  -- paths of refused requests among them, and however many: the files are not changed, nor is it logged in,
  -- as long as no login among them has the digest of the account's password.
  pub handle_requests_refused :
      (reread : Bytes → List Request → List Request) (cfg : Setup) (fd count : ℕ)
      (c : Connection h.Fs) (rs : List Request)
      → c.client ≡ none
      → AreRefused reread cfg count rs
      → ((handle_requests h reread cfg fd count c rs).fs ≡ c.fs)
        × ((handle_requests h reread cfg fd count c rs).client ≡ none)
  unfolding handle_requests
  handle_requests_refused reread cfg fd zero c rs n k = (refl, n)
  handle_requests_refused reread cfg fd (suc count) c [] n k = (refl, n)
  handle_requests_refused reread cfg fd (suc count) c (r ∷ rs) n (k, ks) =
      let (a, b) = handle_request_refused cfg fd c r n k in
      let ks' =
        subst (λ p. AreRefused reread cfg count (read_on reread p rs))
          (sym (unread-left_path cfg fd c r n)) ks in
      let (x, y) =
        handle_requests_refused reread cfg fd count (handle_request h cfg fd c r)
          (read_on reread (unread h cfg fd c r) rs) b ks' in
      (x ∙ a, y)
