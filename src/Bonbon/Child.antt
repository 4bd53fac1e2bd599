-- ===== src/Bonbon/Child.antt =====
-- `child_process` and `match` of MP4/child.cpp. The filter functions, which are compiled and loaded
-- at run time, are a parameter. A deleted entry of `user_queue`, whose descriptor is -1, is none.
-- The set-up of the pipes is left out; a match process that dies is started again.
pub mod Matching
pub mod Deleting
use sp.Base.{
  ℕ, Bool, true, false, not, ◌&&◌, ◌||◌, Option, none, some, List, [], ◌∷◌, ◌++◌, map, Bytes, codes,
  ◌==◌, if◌then◌else◌,
}
use sp.Bonbon.Protocol.{
  User, UserData, Header, Match, to_match, put_in_queue, delete, exit, send_match, no_match, put,
}

pub record Child : Type 0 where
  pub user_queue : List (Option UserData)
  pub match_queue : List UserData
  pub is_done : ℕ → Bool

pub initial : Child
initial = record { user_queue = []; match_queue = []; is_done = λ fd. true }

-- The filter function of a loaded library: whether it gives 1; none if the process dies in it or
-- the library cannot be loaded.
pub record Filters : Type 0 where
  pub filter : Bytes → User → Option Bool

-- `user_queue[i].fd = -1` for both descriptors.
unfoldable pub erase : ℕ → ℕ → List (Option UserData) → List (Option UserData)
erase a b [] = []
erase a b (none ∷ users) = none ∷ erase a b users
erase a b (some u ∷ users) = (if (u.fd == a) || (u.fd == b) then none else some u) ∷ erase a b users

abbrev pub user_data : ℕ → Bytes → User → UserData
user_data fd path user = record { fd = fd; user = user; filter_path = path ++ codes ".so" }

-- A packet from the server; `none` leaves the loop.
unfoldable pub receive : Header → Child → Option Child
unfolding erase
receive exit c = none
receive (delete a b) c =
    some (record c {
      user_queue = erase a b c.user_queue;
      is_done = put (put c.is_done a true) b true;
    })
receive (to_match fd path user) c = some (record c {
  user_queue = c.user_queue ++ some (user_data fd path user) ∷ [];
  match_queue = c.match_queue ++ user_data fd path user ∷ [];
  is_done = put c.is_done fd false;
})
receive (put_in_queue fd path user) c = some (record c {
  user_queue = c.user_queue ++ some (user_data fd path user) ∷ [];
  is_done = put c.is_done fd false;
})

-- What the match process answers: `none` if it dies, else whether it is 1.
abbrev pub ask : Option Bool → Option Bool → Option Bool
ask none theirs = none
ask (some false) theirs = some false
ask (some true) theirs = theirs

-- `if(match_result == 1)`; a match process that died leaves 0.
abbrev pub is_match : Option Bool → Bool
is_match none = false
is_match (some b) = b

-- What is written to the server, behind the number of the packets.
unfoldable pub packets : ℕ → List ℕ → List Match
packets fd [] = no_match ∷ []
packets fd (u ∷ users) = map (send_match fd) (u ∷ users)

module _ (filters : Filters) where
  open filters use {filter}

  -- The filter of the user who is matched, on the other; then the other's on him.
  unfoldable pub match_result : UserData → UserData → Option Bool
  match_result match_data other =
      ask (filter match_data.filter_path other.user) (filter other.filter_path match_data.user)

  -- The loop over `user_queue`, up to the user himself.
  unfoldable pub scan : (ℕ → Bool) → UserData → List (Option UserData) → List ℕ
  unfolding match_result
  scan is_done match_data [] = []
  scan is_done match_data (none ∷ users) = scan is_done match_data users
  scan is_done match_data (some u ∷ users) =
      let rest = scan is_done match_data users in
      if match_data.fd == u.fd
      then []
      else if is_done u.fd
      then rest
      else if is_match (match_result match_data u)
      then u.fd ∷ rest
      else rest

  unfoldable pub matched_user : Child → UserData → List ℕ
  unfolding scan
  matched_user c match_data =
      let found = scan c.is_done match_data c.user_queue in
      if c.is_done match_data.fd then [] else found

  -- The first half of a round: the front of `match_queue`.
  unfoldable pub match_front : Child → Child × List Match
  unfolding matched_user packets
  match_front c = elim c.match_queue [
    | [] ↦ (c, [])
    | match_data ∷ others ↦
        (record c { match_queue = others }, packets match_data.fd (matched_user c match_data))
  ]

  -- One round of `while(true)`, with the packet that select() found, if any.
  unfoldable pub child_round : Option Header → Child → Option Child × List Match
  unfolding match_front receive
  child_round header c =
      let r = match_front c in (elim header [ none ↦ some r.0 | some h ↦ receive h r.0 ], r.1)
