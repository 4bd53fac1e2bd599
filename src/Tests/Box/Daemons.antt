-- ===== src/Tests/Box/Daemons.antt =====
-- Files as a function from paths to bytes, for the theorems on the server of MP5.
use mathlib.Core.Option.{some-injective}
use sp.Base.{
  ◌≡◌, refl, sym, ap, subst, ◌∙◌, false, Option, none, some, List, [], ◌∷◌, ◌++◌, Bytes, codes,
  bytes_eq, bytes_eq_refl, if◌then◌else◌, length,
}
use sp.Box.Config.{getdelim, chop}
use sp.Box.Account.{get_account_info, search_account, strtok, token}
use sp.Box.Server.{Setup}
use sp.Box.Daemon.{
  Host, IsHost, FileData, Request, req_login, req_rm, req_end, Connection, handle_requests,
}
use sp.Box.Daemon.Guard.{AreRefused, handle_requests_refused}

abbrev pub Contents : Type 0
Contents = Bytes → Option Bytes

abbrev pub put : Contents → Bytes → Option Bytes → Contents
put fs path b q = if bytes_eq q path then b else fs q

abbrev pub append_to : Contents → Bytes → Bytes → Option Bytes → Contents
append_to fs path b none = fs
append_to fs path b (some a) = put fs path (some (a ++ b))

abbrev pub host : Host
host = record {
  Fs = Contents;
  lstat = λ fs path. none;
  read = λ fs path. fs path;
  open_w = λ fs path. some (put fs path (some []));
  write = λ fs path b. (append_to fs path b (fs path), length b);
  mkdir = λ fs path. fs;
  chmod = λ fs path mode. fs;
  utime = λ fs path a m. fs;
  rmdir = λ fs path. fs;
  unlink = λ fs path. put fs path none;
  md5 = λ b. b;
}

put_self : (fs : Contents) (path : Bytes) (b : Option Bytes) → put fs path b path ≡ b
put_self fs path b = rw (bytes_eq_refl path) refl

pub host-IsHost : IsHost host
host-IsHost = record {
  read-open_w =
      λ fs fs' path o. ap (λ x. x path) (sym (some-injective _ _ o)) ∙ put_self fs path (some []);
  read-write = λ fs path a b r n.
      subst (λ o. append_to fs path b o path ≡ some (a ++ b)) (sym r)
        (put_self fs path (some (a ++ b)));
}

abbrev pub no_files : Contents
no_files path = none

abbrev two_bytes : FileData
two_bytes = record { datalen = 2; bytes = codes "hix" }

abbrev pub setup : Setup
setup = record { path = codes "sdir"; accounts = some (codes "ann,pw\n") }

abbrev connection : Connection Contents
connection = record { fs = no_files; client = none; sent = [] }

-- A wrong password, and then a removal.
abbrev requests : List Request
requests = req_login (codes "ann") (codes "no") ∷ req_rm 5 (codes "/a") ∷ req_end ∷ []

-- Bytes that are left are read as the password of a login.
abbrev as_login : Bytes → List Request → List Request
as_login path rs = req_login (codes "ann") path ∷ rs

requests-AreRefused : AreRefused host as_login setup 4 requests
unfolding get_account_info search_account getdelim chop strtok token
requests-AreRefused = (
  (λ found e. subst (λ b. bytes_eq (codes "no") b ≡ false) (some-injective _ _ e) refl),
  (
    tt,
    (
      (λ found e. subst (λ b. bytes_eq (codes "/a") b ≡ false) (some-injective _ _ e) refl),
      (tt, tt),
    ),
  ),
)

handle_requests_refused_example :
    ((handle_requests host as_login setup 5 4 connection requests).fs ≡ no_files)
    × ((handle_requests host as_login setup 5 4 connection requests).client ≡ none)
handle_requests_refused_example =
    handle_requests_refused host as_login setup 5 4 connection requests refl requests-AreRefused
