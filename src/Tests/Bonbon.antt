-- ===== src/Tests/Bonbon.antt =====
-- Users of the chat server, with a small JSON library: a text is its own object, its command, and
-- the value of each of its fields.
use mathlib.Core.Option.{some-injective}
use sp.Base.{
  ℕ, ◌≡◌, ◌≢◌, ◌↔◌, refl, sym, ap, ◌∙◌, inl, inr, true, false, Option, none, some, List, [], ◌∷◌,
  ◌++◌, arith, Bytes, codes, newline, ◌==◌, if◌then◌else◌,
}
use sp.Bonbon.Protocol.{User, Header, to_match, delete, send_match, no_match, put}
use sp.Bonbon.Child.{
  Child, Filters, user_data, erase, receive, scan, packets, matched_user, match_result, match_front,
  child_round,
}
use sp.Bonbon.Child.Matching.{Listed, IsPartner, match_front-IsPartner}
use sp.Bonbon.Child.Deleting.{run, run-deleted}
use sp.Bonbon.Json.{JsonLib}
use sp.Bonbon.Server.{
  Server, Step, Input, Setup, send, update_queue, join, quit, after_command, drop_line, obey_line,
  received, first_live, handle_msg, execute, receive_text, settle, serve_client,
}
use sp.Bonbon.Server.Pairs.{IsPaired, settle-IsPaired, serve_client-IsPaired}
use sp.Bonbon.Server.Lines.{receive_text-second}

abbrev someone : User
someone = record {
  name = codes "ann";
  age = 20;
  gender = codes "female";
  introduction = codes "hi";
}

-- Everybody's filter accepts everybody.
abbrev friendly : Filters
friendly = record { filter = λ path user. some true }

abbrev two_waiting : Child
two_waiting = record {
  user_queue =
      some (user_data 6 (codes "f6") someone) ∷ some (user_data 7 (codes "f7") someone) ∷ [];
  match_queue = user_data 7 (codes "f7") someone ∷ [];
  is_done = λ fd. if fd == 6 then false else if fd == 7 then false else true;
}

match_front-IsPartner_example : Listed (send_match 7 6) (match_front friendly two_waiting).1 ↔ (
    (◌≡◌ {A = ℕ} 7 7)
    × (two_waiting.is_done 7 ≡ false)
    × IsPartner friendly two_waiting.is_done
        (user_data 7 (codes "f7") someone)
        two_waiting.user_queue
        6)
match_front-IsPartner_example =
    match_front-IsPartner friendly two_waiting (user_data 7 (codes "f7") someone) [] 7 6 refl

abbrev seven_gone : Child
seven_gone = record two_waiting {
  user_queue = some (user_data 6 (codes "f6") someone) ∷ none ∷ [];
  match_queue = [];
  is_done = put (put two_waiting.is_done 7 true) 0 true;
}

-- 6 is to be matched once more after 7 has left.
abbrev next_packets : List (Option Header)
next_packets = some (to_match 8 (codes "f8") someone) ∷ none ∷ []

abbrev waiting_again : Child
waiting_again = record seven_gone { match_queue = user_data 7 (codes "f7") someone ∷ [] }

deleted_seven : receive (delete 7 0) two_waiting ≡ some waiting_again
unfolding receive erase
deleted_seven = refl

eight-Listed : Listed (send_match 8 6) (run friendly next_packets waiting_again)
unfolding run child_round match_front receive scan packets matched_user match_result
eight-Listed = inr (inl refl)

run-deleted_example : (◌≢◌ {A = ℕ} 8 7) × (◌≢◌ {A = ℕ} 6 7)
run-deleted_example =
    run-deleted friendly two_waiting waiting_again 7 0 7 8 6 next_packets deleted_seven (inl refl)
      (refl, tt) eight-Listed

abbrev plain : JsonLib
plain = record {
  Json = Bytes;
  null = [];
  parse = λ text. some text;
  get_string = λ j key. some j;
  get_number = λ j key. some 1;
  put_string = λ j key value. j;
  dump = λ j. j;
}

abbrev setup : Setup
setup = record { sockfd = 3; is_child = λ fd. false }

abbrev lobby : Server Bytes
lobby = record {
  is_done = λ fd. if fd == 6 then false else if fd == 7 then false else true;
  pair = λ fd. 0;
  json_pool = λ fd. [];
  fd_queue = λ fd. true;
  max_fd = 9;
  current_process = 0;
  matched = 0;
  temp_msg = [];
}

lobby-IsPaired : IsPaired plain setup lobby
lobby-IsPaired = record {
  zero_alone = refl;
  mutual_pair = λ fd h. absurd (h refl);
  busy = λ fd h. absurd (h refl);
}

abbrev joined : Step Bytes
joined = record {
  server = record lobby {
    is_done = put (put lobby.is_done 6 true) 7 true;
    pair = put (put lobby.pair 6 7) 7 6;
    matched = 1;
  };
  outputs = update_queue 6 7 ++ send 7 (newline ∷ []) ∷ send 6 (newline ∷ []) ∷ [];
  breaks = false;
}

settled : settle plain setup lobby (no_match ∷ send_match 6 7 ∷ []) ≡ some joined
unfolding settle first_live join
settled = refl

joined-IsPaired : IsPaired plain setup joined.server
joined-IsPaired =
    settle-IsPaired plain setup lobby (no_match ∷ send_match 6 7 ∷ []) joined lobby-IsPaired
      ((ground arith, ground arith, ground arith), tt) settled

abbrev quitting : Step Bytes
quitting = quit plain setup (record (joined.server) { temp_msg = [] }) 6

quit_served : serve_client plain setup joined.server 6 (received (codes "quit\n")) ≡ some quitting
unfolding serve_client receive_text obey_line execute quit handle_msg after_command drop_line
quit_served = refl

quit_line : handle_msg (codes "quit\n") ≡ some (codes "quit", [])
unfolding handle_msg
quit_line = refl

buffer_of : Input → Bytes
buffer_of (received buffer) = buffer
buffer_of _ = []

not_asking :
    (buffer line rest : Bytes)
    → received (codes "quit\n") ≡ received buffer
    → handle_msg buffer ≡ some (line, rest)
    → line ≡ codes "try_match"
    → ⊥
unfolding buffer_of
not_asking buffer line rest e f h =
    let same : codes "quit\n" ≡ buffer = ap buffer_of e in
    let cut : (codes "quit", []) ≡ (line, rest) =
      some-injective _ _ (sym quit_line ∙ ap handle_msg same ∙ f) in
    let quit_asked : codes "quit" ≡ codes "try_match" = ap (λ r. r.0) cut ∙ h in ground arith

serve_client-IsPaired_example : IsPaired plain setup quitting.server
serve_client-IsPaired_example =
    serve_client-IsPaired plain setup joined.server 6 (received (codes "quit\n")) quitting
      joined-IsPaired
      (λ buffer line rest e f j g h.
        absurd (not_asking buffer line rest e f (some-injective _ _ g ∙ some-injective _ _ h)))
      quit_served

abbrev nothing_done : Step Bytes
nothing_done = record {
  server = record lobby { temp_msg = codes "quit\n" };
  outputs = [];
  breaks = false;
}

unknown_command :
    execute plain setup (record lobby { temp_msg = codes "quit\n" }) 6 (codes "hi") (codes "hi")
    ≡ some nothing_done
unfolding execute
unknown_command = refl

receive_text-second_example :
    receive_text plain setup lobby 6 (codes "hi\nquit\n")
    ≡ some (record nothing_done { server = record (nothing_done.server) { temp_msg = [] } })
receive_text-second_example =
    receive_text-second plain setup lobby 6 (codes "hi") (codes "quit") [] (codes "hi") (codes "hi")
      nothing_done refl (ground arith) (ground arith) (ground arith) (ground arith) (ground arith)
      refl refl unknown_command refl
