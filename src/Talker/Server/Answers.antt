-- ===== src/Talker/Server/Answers.antt =====
-- The answers of ServerTalker (src/server_talker.cpp) to the commands that are answered at once.
use build_your_own_redis.Prelude.{
  leb, ℕ, ◌≡◌, refl, sym, ap, ◌∙◌, Option, none, some, List, [], ◌∷◌, ◌++◌, append-nil, arith,
  if◌then◌else◌, Bool-cases, inl, inr,
}
use build_your_own_redis.Text.{Bytes, text, same, to_lower_case}
use build_your_own_redis.Outcome.{Outcome, ok, err, undefined}
use build_your_own_redis.Message.{Message}
use build_your_own_redis.Command.{
  Command, ping, echo, set, get, info, replconf, psync, wait, keys, config, type, xadd, xrange,
  xread,
}
use build_your_own_redis.Command.Parse.{try_parse}
use build_your_own_redis.Command.Construct.{construct}
use build_your_own_redis.Dict.{find}
use build_your_own_redis.Stream
use build_your_own_redis.Stream.Id.{InputStreamId, BoundStreamId}
use build_your_own_redis.Stream.Value.{StreamPartValue, StreamData, StreamRange, Entry, entries}
use build_your_own_redis.Storage
use build_your_own_redis.Storage.Blocking.{StorageState}
use build_your_own_redis.Middleware
use build_your_own_redis.Middleware.Replicas.{Middleware, set_and_push, push, push_all}
use build_your_own_redis.Server.{is_replica}
use build_your_own_redis.Talker.Server.{
  World, ServerTalker, Heard, heard, threw, undefined_there, Outside, say, put_back, call_slots,
  blocking,
}
use build_your_own_redis.Talker.Server.Listen.{
  hear_config, hear_xadd, hear_entries, hear_set, hear_get, hear_parsed, obey, listen,
}

-- A talker keeps its state and adds one answer behind what is pushed.
abbrev pub Answered : ServerTalker → World → List (ℕ × Message) → Heard → Type 0
Answered t w pushed (heard u v) =
    (u ≡ t)
    × (a : Message) × (v.middleware.sent ≡ (w.middleware.sent ++ pushed) ++ (t.slot, a) ∷ [])
Answered t w pushed (threw reason u v) = ⊥
Answered t w pushed undefined_there = Unit

-- The commands that are answered at once, and what each of these pushes to replicas
abbrev pub IsPrompt : Outcome Command → Type 0
IsPrompt undefined = ⊥
IsPrompt (ok (replconf args)) = ⊥
IsPrompt (ok (psync args)) = ⊥
IsPrompt (ok (wait replicas timeout_ms)) = ⊥
IsPrompt (ok (xread request block_ms)) = ⊥
IsPrompt _ = Unit

abbrev pub pushed_for : Outcome Command → World → List (ℕ × Message)
pushed_for (ok (set key value expire_ms)) w =
    if is_replica w.info
    then []
    else (push_all (construct (set key value expire_ms)) w.middleware.replicas).1
pushed_for _ w = []

-- An answer with nothing pushed
plainly :
    (t : ServerTalker) (w v : World) (a : Message)
    → v.middleware.sent ≡ w.middleware.sent
    → Answered t w [] (heard t (say t.slot a v))
plainly t w v a e =
    (refl, a, ap (λ l. l ++ (t.slot, a) ∷ []) (e ∙ sym (append-nil w.middleware.sent)))

set-Answered :
    (now : ℕ) (key value : Bytes) (expire_ms : Option ℕ) (t : ServerTalker) (w : World)
    → Answered t w
        (pushed_for (ok (set key value expire_ms)) w)
        (hear_set now key value expire_ms t w)
unfolding hear_set set_and_push push
set-Answered now key value expire_ms t w = elim (Bool-cases (is_replica w.info)) [
  | inl e ↦ rw e (plainly t w w _ refl)
  | inr e ↦ rw e (refl, _, refl)
]

get-Answered :
    (now : ℕ) (key : Bytes) (t : ServerTalker) (w : World) → Answered t w [] (hear_get now key t w)
unfolding hear_get Middleware.Replicas.get
get-Answered now key t w =
    plainly t w (record w { middleware = (Middleware.Replicas.get now key w.middleware).0 }) _ refl

config-Answered :
    (action : Bytes) (args : List Bytes) (t : ServerTalker) (w : World)
    → Answered t w [] (hear_config action args t w)
unfolding hear_config
config-Answered action args t w = elim (Bool-cases (same (to_lower_case action) (text "get"))) [
  | inl e ↦ rw e (plainly t w w _ refl)
  | inr e ↦ rw e (plainly t w w _ refl)
]

put_back-sent :
    (s : StorageState) (w : World)
    → s.answered ≡ []
    → (put_back s w).middleware.sent ≡ w.middleware.sent
unfolding put_back call_slots
put_back-sent s w e = rw (call_slots, e) refl

wakened-answered :
    (key : Bytes) (r : Storage.Keyspace.Added) (s : StorageState)
    → (Storage.Blocking.wakened key r s).answered ≡ s.answered
unfolding Storage.Blocking.wakened
wakened-answered key r s = ground arith

xadd-Answered :
    (now : ℕ) (key : Bytes) (id : InputStreamId) (values : StreamPartValue) (t : ServerTalker)
    (w : World)
    → Answered t w [] (hear_xadd now key id values t w)
unfolding hear_xadd Storage.Blocking.xadd
xadd-Answered now key id values t w =
    plainly t w (put_back (Storage.Blocking.xadd now key id values (blocking w)) w) _ (
      put_back-sent _ w (
        wakened-answered key (Storage.Keyspace.xadd now key id values w.middleware.storage)
          (blocking w)))

-- It does not throw.
abbrev IsQuiet : {A : Type 0} → Outcome A → Type 0
IsQuiet (ok a) = Unit
IsQuiet (err reason) = ⊥
IsQuiet undefined = Unit

entries-IsQuiet : (m : StreamData) (r : StreamRange) → IsQuiet (entries m r)
unfolding entries
entries-IsQuiet m r = elim (Bool-cases (leb r.begin r.end)) [ inl e ↦ rw e tt | inr e ↦ rw e tt ]

xrange-IsQuiet :
    (key : Bytes) (left_id right_id : BoundStreamId) (d : Storage.Keyspace.Keyspace)
    → IsQuiet (Storage.Keyspace.xrange key left_id right_id d)
unfolding Storage.Keyspace.xrange
xrange-IsQuiet key left_id right_id d = by_value (find key d)
  where
    by_value :
        (o : Option Storage.Keyspace.Value)
        → IsQuiet (elim o [
          | none ↦ ok []
          | some (Storage.Keyspace.string_value s) ↦ undefined
          | some (Storage.Keyspace.stream_value m) ↦
              entries m (Stream.Value.xrange left_id right_id m)
        ])
    by_value none = tt
    by_value (some (Storage.Keyspace.string_value s)) = tt
    by_value (some (Storage.Keyspace.stream_value m)) = entries-IsQuiet m _

entries-Answered :
    (t : ServerTalker) (w : World) (o : Outcome (List Entry))
    → IsQuiet o
    → Answered t w [] (hear_entries t w o)
unfolding hear_entries
entries-Answered t w (ok es) h = plainly t w w _ refl
entries-Answered t w (err reason) h = elim h [ ]
entries-Answered t w undefined h = tt

hear_parsed-Answered :
    (outside : Outside) (now : ℕ) (o : Outcome Command) (t : ServerTalker) (w : World)
    → IsPrompt o
    → Answered t w (pushed_for o w) (hear_parsed outside now o t w)
unfolding hear_parsed obey
hear_parsed-Answered outside now undefined t w h = elim h [ ]
hear_parsed-Answered outside now (err reason) t w h = plainly t w w _ refl
hear_parsed-Answered outside now (ok ping) t w h = plainly t w w _ refl
hear_parsed-Answered outside now (ok (echo s)) t w h = plainly t w w _ refl
hear_parsed-Answered outside now (ok (type key)) t w h = plainly t w w _ refl
hear_parsed-Answered outside now (ok (keys arg)) t w h = plainly t w w _ refl
hear_parsed-Answered outside now (ok (info args)) t w h = plainly t w w _ refl
hear_parsed-Answered outside now (ok (get key)) t w h = get-Answered now key t w
hear_parsed-Answered outside now (ok (set key value expire_ms)) t w h =
    set-Answered now key value expire_ms t w
hear_parsed-Answered outside now (ok (config action args)) t w h = config-Answered action args t w
hear_parsed-Answered outside now (ok (xadd key id values)) t w h =
    xadd-Answered now key id values t w
hear_parsed-Answered outside now (ok (xrange key left_id right_id)) t w h =
    entries-Answered t w _ (xrange-IsQuiet key left_id right_id w.middleware.storage)
hear_parsed-Answered outside now (ok _) t w h = elim h [ ]

-- A message that is a command other than REPLCONF, PSYNC, WAIT and XREAD, or no command, is taken
-- without an exception: the talker stays as it is, and the message is answered exactly once, behind what
-- a SET on a master pushes to the replicas, and nothing else is sent, where the behaviour is defined.
pub listen-Answered :
    (outside : Outside) (now : ℕ) (m : Message) (t : ServerTalker) (w : World)
    → IsPrompt (try_parse m)
    → Answered t w (pushed_for (try_parse m) w) (listen outside now m t w)
unfolding listen
listen-Answered outside now m t w h = hear_parsed-Answered outside now (try_parse m) t w h
