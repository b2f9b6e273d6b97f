-- ===== src/Session/Request.antt =====
-- What ClientSession::Process of EdoyumIMServer/ClientSession.cpp makes of the bytes of a request.
use my_project_imserver.Base.{
  ℕ, ◌+◌, ◌<◌, ◌≡◌, refl, ◌∙◌, Bool, true, false, [], ◌++◌, Option, none, some, arith, length,
  Bytes, IsWord, be_word,
}
use my_project_imserver.Wire.Reader.{new_reader, read_data, read_data-be_word}
use my_project_imserver.Users.Manager.{DbApi}
use my_project_imserver.Server.{Session, map_find, map_set}
use my_project_imserver.Session.Json.{JsonApi}
use my_project_imserver.Session.World.{World, session_of, put_session}
use my_project_imserver.Session.Process.{dispatch, process_text, process_seq, process}
use my_project_imserver.Wire.Strings.{read_body, IsText, string_body, length-string_body}
use my_project_imserver.Session.Sending.{bind-some, session_of-found}

-- A request: the command, the session's number, the text and what the command has more.
abbrev pub request : ℕ → ℕ → Bytes → Bytes → Bytes
request cmd seq text rest = be_word cmd ++ (be_word seq ++ (string_body text ++ rest))

-- The handler has run, and Process returns true.
abbrev pub handled : {Db : Type 0} → Option (Unit {0} × World Db) → Option (Bool × World Db)
handled none = none
handled (some (_, w)) = some (true, w)

return_true :
    {Db : Type 0} (m : Option (Unit {0} × World Db))
    → (elim m as (λ _. Option (Bool × World Db)) [ none ↦ none | some (_, w) ↦ some (true, w) ])
      ≡ handled m
return_true none = refl
return_true (some (_, w)) = refl

-- The world with a new number in a session.
abbrev pub numbered : {Db : Type 0} → Bytes → ℕ → Session → World Db → World Db
numbered this seq s w = record w { sessions = map_set this (record s { seq = seq }) w.sessions }

module _ (database : DbApi) (json : JsonApi) (memory : ℕ) (this : Bytes) where
  open database use {Db}

  process_text_lem :
      (cmd : ℕ) (text front rest : Bytes) (w : World Db)
      → IsText text
      → length front + length (string_body text) < 0x1_0000_0000
      → process_text database json memory this cmd
          (record { buffer = front ++ (string_body text ++ rest); index = length front })
          w
        ≡ handled (
            dispatch database json memory this cmd text
              (record {
                buffer = front ++ (string_body text ++ rest);
                index = length front + length (string_body text);
              })
              w)
  unfolding process_text
  process_text_lem cmd text front rest w ht fits =
      rw (read_body text front rest (length front) refl ht fits, process_text) (return_true _)

  -- Process takes apart what a client packs: a command, a number and a text below 2^31 - 65536
  -- bytes behind its length. The session gets the number, the handler of the command runs on the
  -- text with the reader just behind it, and the result is true unless the handler throws.
  pub process-request :
      (cmd seq : ℕ) (text rest : Bytes) (s : Session) (w : World Db)
      → IsWord cmd
      → IsWord seq
      → IsText text
      → map_find this w.sessions ≡ some s
      → process database json memory this (request cmd seq text rest) w
        ≡ handled (
            dispatch database json memory this cmd text
              (record { buffer = request cmd seq text rest; index = 8 + length (string_body text) })
              (numbered this seq s w))
  unfolding process process_seq new_reader put_session session_of
  process-request cmd seq text rest s w hc hs ht found =
      let body = string_body text ++ rest in
      rw
        (
          read_data-be_word cmd [] (be_word seq ++ body) hc (omega arith),
          process,
          read_data-be_word seq (be_word cmd) body hs (omega arith),
          process_seq,
        )
        (bind-some (session_of this) _ s w w (session_of-found this s w found)
          ∙ process_text_lem cmd text (be_word cmd ++ be_word seq) rest (numbered this seq s w) ht
              (omega (arith, length-string_body text ht)))

  pub process_short :
      (msg : Bytes) (w : World Db)
      → length msg < 4
      → process database json memory this msg w ≡ some (false, w)
  unfolding process read_data new_reader
  process_short msg w h = ground arith
