-- ===== src/Tests/Connections.antt =====
-- The talker of the server and the handler of a connection at concrete inputs.
use build_your_own_redis.Prelude.{
  ◌≡◌, ◌≢◌, refl, true, false, none, some, List, [], ◌∷◌, ◌++◌, arith, All,
}
use build_your_own_redis.Text.{Bytes, text, same, to_lower_case}
use build_your_own_redis.Text.Decimal.{pos, decimal}
use build_your_own_redis.Message.{
  Message, simple_string, bulk_string, array, cons, nil, size, to_list, to_string, to_string_all,
  print_bulk, print_header,
}
use mathlib.Core.List.{cons-ne-nil}
use build_your_own_redis.MessageParser
use build_your_own_redis.MessageParser.{on_buffer, nothing_yet}
use build_your_own_redis.MessageParser.Chunks.{IsSendable}
use build_your_own_redis.Command.{set, get}
use build_your_own_redis.Command.Parse.{try_parse, dispatch}
use build_your_own_redis.Command.Construct.{construct}
use build_your_own_redis.Middleware.Replicas.{init}
use build_your_own_redis.Server.{ServerInfo, is_replica}
use build_your_own_redis.Talker.Server.{World, ServerTalker, Outside, heard, say}
use build_your_own_redis.Talker.Server.Listen.{listen, hear_parsed, obey}
use build_your_own_redis.Talker.Server.Session.{listen-set-get}
use build_your_own_redis.Talker.Server.Answers.{IsPrompt, listen-Answered, Answered, pushed_for}
use build_your_own_redis.Talker.Server.Connection.{server_ops}
use build_your_own_redis.Handler.{
  Handler, TalkerOps, listened, endless, wrote, would_block, no_more, end_of_file, process_read,
  process_write, say_all, append_all,
}
use build_your_own_redis.Handler.Output.{Outputs, output, texts, say_all-Outputs}
use build_your_own_redis.Handler.Hears.{texts_onto, open_with, process_read-texts_onto}
use build_your_own_redis.Handler.Terminates.{process_read-ne-endless}

abbrev master_info : ServerInfo
master_info = record {
  debug_level = 0;
  tcp_port = pos 6379;
  dir = [];
  dbfilename = [];
  role = 109 ∷ [];
  master_replid = 97 ∷ [];
  master_repl_offset = pos 0;
  master_host = [];
  master_port = pos 0;
}

abbrev world : World
world = record {
  info = master_info;
  middleware = init;
  readers = record {
    items = [];
    stream_waitlists = [];
    readers = [];
    next_serial = 0;
    next_node = 0;
    posted = [];
    timeouts = [];
    answered = [];
  };
}

abbrev client : ServerTalker
client = record { slot = 7; replica_id = none }

abbrev nothing_outside : Outside
nothing_outside = record { file = λ dir name. none; base64_decode = λ s. s }

role-is_replica : is_replica master_info ≡ false
unfolding is_replica text same
role-is_replica = refl

abbrev k : Bytes
k = 107 ∷ []

abbrev v : Bytes
v = 118 ∷ []

listen-set-get_example :
    (u x : World) × (listen nothing_outside 10 (construct (set k v (some 5))) client world
      ≡ heard client u)
    × (listen nothing_outside 20 (construct (get k)) client u ≡ heard client x)
    × (x.middleware.sent ≡ u.middleware.sent ++ (7, bulk_string v) ∷ [])
listen-set-get_example =
    listen-set-get nothing_outside 10 20 k v (some 5) client client world role-is_replica
      (omega arith, omega arith)

abbrev hello : Message
hello = simple_string (104 ∷ [])

hello-IsPrompt : IsPrompt (try_parse hello)
unfolding try_parse
hello-IsPrompt = tt

listen-Answered_example :
    Answered client world
      (pushed_for (try_parse hello) world)
      (listen nothing_outside 10 hello client world)
listen-Answered_example = listen-Answered nothing_outside 10 hello client world hello-IsPrompt

-- A connection to the client, on which one byte can be written before the socket blocks
abbrev connection : Handler (ServerTalker × World)
connection = record {
  is_open = true;
  talker = (client, world);
  parser = on_buffer [];
  write_buffer = [];
  socket = wrote 1 ∷ would_block ∷ [];
  written = [];
  emitted = [];
}

abbrev ops : TalkerOps (ServerTalker × World)
ops = server_ops nothing_outside 10

say_all-Outputs_example :
    Outputs
      (output connection ++ texts (hello ∷ hello ∷ []))
      (say_all ops (hello ∷ hello ∷ []) connection)
say_all-Outputs_example = say_all-Outputs ops (hello ∷ hello ∷ []) connection

process_read-ne-endless_example :
    process_read ops (text "+h\r" ∷ []) end_of_file connection ≢ endless
process_read-ne-endless_example =
    process_read-ne-endless ops (text "+h\r" ∷ []) end_of_file connection

-- PING in two pieces, with the first byte of another message
abbrev pieces : List Bytes
pieces = text "*1\r\n$4\r\nPI" ∷ text "NG\r\n+" ∷ []

abbrev ping_message : Message
ping_message = array (cons (bulk_string (80 ∷ 73 ∷ 78 ∷ 71 ∷ [])) nil)

ping-IsSendable : All IsSendable (ping_message ∷ [])
unfolding IsSendable
ping-IsSendable = ((unfold size in omega arith, ((cons-ne-nil _ _, omega arith), tt)), tt)

abbrev greeted : ServerTalker × World
greeted = (client, say 7 (simple_string (80 ∷ 79 ∷ 78 ∷ 71 ∷ [])) world)

waits-tail : MessageParser.try_parse false (on_buffer (43 ∷ [])) ≡ nothing_yet (on_buffer (43 ∷ []))
unfolding MessageParser.try_parse
waits-tail = refl

pieces-texts_onto : append_all pieces [] ≡ texts_onto (ping_message ∷ []) (43 ∷ [])
unfolding append_all to_string to_string_all print_bulk print_header size decimal text
pieces-texts_onto = refl

hears-ping : ops.listen ping_message (client, world) ≡ listened greeted
unfolding server_ops listen hear_parsed obey try_parse dispatch to_list to_lower_case same text
hears-ping = refl

process_read-texts_onto_example :
    process_read ops pieces no_more (open_with (on_buffer []) connection (client, world))
    ≡ process_write ops (open_with (on_buffer (43 ∷ [])) connection greeted)
process_read-texts_onto_example =
    process_read-texts_onto ops pieces (ping_message ∷ []) (43 ∷ []) (on_buffer (43 ∷ []))
      connection (client, world) greeted ping-IsSendable waits-tail pieces-texts_onto
      (never_file (client, world), greeted, hears-ping, (never_file greeted, refl))
  where
    never_file : (p : ServerTalker × World) → ops.expects_file p ≡ false
    never_file p = unfold server_ops in refl
