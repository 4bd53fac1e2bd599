-- ===== src/Bonbon/Server/Tasks.antt =====
-- How a user is given to the children.
use sp.Base.{
  ℕ, zero, suc, ◌+◌, ◌<◌, ◌≡◌, List, [], ◌∷◌, arith, Bytes, not, ltb, leb, ◌&&◌, ◌==◌,
  if◌then◌else◌,
}
use sp.Bonbon.Protocol.{User, Header, to_match, put_in_queue, child_num}
use sp.Bonbon.Json.{JsonLib}
use sp.Bonbon.Server.{Output, Setup, to_child, to_others, assign_task}

-- What a child is written, in order.
abbrev pub told : ℕ → List Output → List Header
told k [] = []
told k (to_child i h ∷ outputs) = if i == k then h ∷ told k outputs else told k outputs
told k (_ ∷ outputs) = told k outputs

told-to_others :
    (k current i more : ℕ) (h : Header)
    → told k (to_others current i more h)
      ≡ (if (leb i k && ltb k (i + more)) && not (k == current) then h ∷ [] else [])
unfolding to_others
told-to_others k current i zero h = ground arith
told-to_others k current i (suc more) h = ground (arith, told-to_others k current (i + 1) more h)

module _ (json : JsonLib) (setup : Setup) where
  -- Each child is told of a new user exactly once: the one whose turn it is to match him, and every
  -- other one to put him into its queue.
  pub told-assign_task :
      (current k fd : ℕ) (path : Bytes) (user : User)
      → k < child_num
      → told k (assign_task json setup current fd path user)
        ≡ (if k == current then to_match fd path user else put_in_queue fd path user) ∷ []
  unfolding assign_task
  told-assign_task current k fd path user l =
      rw (told-to_others k current 0 child_num (put_in_queue fd path user)) (ground arith)
