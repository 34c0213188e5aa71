-- ===== src/MessageBus/Examples.antt =====
-- Three agents on a bus.
use ai_agent_starter_kit.MessageBus.{
  MessagePriority, low, normal, high, urgent, directed, broadcast, request, AgentMessage, Bus,
  new_bus,
}
use ai_agent_starter_kit.MessageBus.Mailbox.{
  Bands, flatten, MailboxCall, put_in, take_out, serve, serve_bands, mailbox_bands,
}
use ai_agent_starter_kit.MessageBus.Ledger.{IsBalanced}
use ai_agent_starter_kit.MessageBus.Conservation.{
  BusCall, sending, registering, unregistering, receiving, handling, beginning, ending, bus_run,
  bus_run-IsBalanced,
}
use ai_agent_starter_kit.Common.{ℕ, ◌≡◌, refl, Option, none, some, List, [], ◌∷◌, Text, codes}

abbrev note : MessagePriority → Text → AgentMessage
note priority payload = record {
  sender_agent_id = codes "planner";
  recipient_agent_id = codes "coder";
  message_type = directed;
  payload = payload;
  priority = priority;
  correlation_id = codes "c1";
  topic = [];
}

abbrev empty_bands : Bands
empty_bands = record { urgent_ones = []; high_ones = []; other_ones = [] }

abbrev mixed_calls : List MailboxCall
mixed_calls =
    put_in (note normal (codes "a"))
    ∷ put_in (note high (codes "b"))
    ∷ put_in (note urgent (codes "c"))
    ∷ put_in (note high (codes "d"))
    ∷ put_in (note low (codes "e"))
    ∷ take_out
    ∷ take_out
    ∷ take_out
    ∷ []

abbrev payloads : List (Option AgentMessage) → List Text
payloads [] = []
payloads (none ∷ ms) = [] ∷ payloads ms
payloads (some m ∷ ms) = m.payload ∷ payloads ms

mixed_order : payloads (serve 10 mixed_calls []) ≡ codes "c" ∷ codes "d" ∷ codes "b" ∷ []
unfolding serve
mixed_order = refl

mailbox_bands_example :
    serve 4 mixed_calls (flatten empty_bands) ≡ serve_bands 4 mixed_calls empty_bands
mailbox_bands_example = mailbox_bands 4 mixed_calls empty_bands (tt, tt)

-- The coder answers a request, the planner reads the answer and leaves.
abbrev bus_calls : List BusCall
bus_calls =
    registering (codes "planner")
    ∷ registering (codes " Coder ")
    ∷ handling (codes "coder") (λ m. some (codes "done"))
    ∷ beginning (codes "c1")
    ∷ sending (record (note normal (codes "build")) { message_type = request })
    ∷ ending (codes "c1")
    ∷ receiving (codes "planner")
    ∷ sending (record (note normal (codes "all")) { message_type = broadcast })
    ∷ sending (record (note normal (codes "x")) { recipient_agent_id = codes "nobody" })
    ∷ unregistering (codes "coder")
    ∷ []

abbrev counts : Bus × ℕ → ℕ × ℕ × ℕ × ℕ
counts (b, gone) = (b.sent_count, b.delivered_count, b.failed_count, gone)

bus_counts : counts (bus_run bus_calls (new_bus 5) 0) ≡ (4, 3, 1, 3)
unfolding bus_run
bus_counts = refl

bus_run-IsBalanced_example : let (b, gone) = bus_run bus_calls (new_bus 5) 0 in IsBalanced b gone
bus_run-IsBalanced_example = bus_run-IsBalanced bus_calls 5
