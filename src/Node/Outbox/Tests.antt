-- ===== src/Node/Outbox/Tests.antt =====
-- The outbox of messages at concrete inputs.
use oxinode.Prelude.{
  ℕ, ◌-◌, ◌^◌, true, Bool, [], ◌∷◌, map, none, some, Option, Bytes, ◌≡◌, refl, arith,
}
use oxinode.Prelude.Finds.{find, same, change_first}
use oxinode.Node.Delivery.{no_proof, queued, host, sent, delivered, is_held, is_delivered}
use oxinode.Node.Peers.{Peer, Table, get}
use oxinode.Node.Outbox.{Sending, Outbox, Outbound, ask, send, given_up, queue, written}
use oxinode.Node.Outbox.Scheduling.{due, due_in, due_loop, due_turn, due_sent, or_later}
use oxinode.Node.Outbox.Attempts.{
  Proof, proved, went_by, find_proved, proof_for, names_packet, signed_by,
}
use oxinode.Node.Outbox.Holding.{hold, resume, hold_one, resume_one}
use oxinode.Node.Outbox.Drain.{calls, calls-Settled}
use oxinode.Node.Outbox.Fates.{Fates}
use oxinode.Node.Outbox.Room.{Queued, queue-Queued}
use oxinode.Node.Outbox.Resuming.{queued_again, resume-hold, due_in-resume}
use oxinode.Node.Outbox.Proofs.{Answers, proved-Answers}

abbrev hello : Outbound
hello = record { hash = 1 ∷ []; destination = 2 ∷ []; plaintext = 3 ∷ [] }

abbrev waiting : Sending
waiting = written hello (4 ∷ []) 100 none

-- A message that went three times and waits for its proof.
abbrev thrice : Sending
thrice = record waiting {
  delivery = sent 3;
  attempts = 3;
  next_ms = 90000;
  packets = (5 ∷ []) ∷ [];
}

abbrev box : Outbox
box = record { kept = waiting ∷ thrice ∷ []; delivered_count = 0; failed_count = 0 }

abbrev strangers : Table
strangers = record { peers = []; lxmf = []; refused_count = 0 }

abbrev friend : Peer
friend = record {
  destination = 2 ∷ [];
  public_key = 7 ∷ [];
  name = none;
  last_heard_ms = 50;
  hops = none;
  signal = none;
  conversation = true;
}

abbrev friends : Table
friends = record { peers = friend ∷ []; lxmf = []; refused_count = 0 }

-- No key is known: a path is asked for the first, and the second waits for its proof.
first_asked : (calls 2 box 200 strangers).1 ≡ ask (2 ∷ []) ∷ []
unfolding calls due due_loop due_in due_turn due_sent or_later get find
first_asked = refl

-- The second went three times, and is given up; the first is sent.
second_given_up :
    (calls 2 box 90000 friends).1
    ≡ send (1 ∷ []) (2 ∷ []) ∷ given_up (1 ∷ []) (2 ∷ []) no_proof ∷ []
unfolding calls due due_loop due_in due_turn due_sent or_later get find same
second_given_up = refl

calls-Settled_example :
    let (o', answers) = calls 2 box 90000 friends in
    ((due o' 90000 friends).1 ≡ none) × Fates 90000 friends box.kept o'.kept answers
calls-Settled_example = calls-Settled 90000 friends (omega arith) box

queue-Queued_example :
    Queued box.kept (written hello [] 300 (some host)) (queue box hello [] 300 (some host))
queue-Queued_example = queue-Queued box hello [] 300 (some host) (omega arith)

held_by_host : is_held (queued host) ≡ true
unfolding is_held
held_by_host = refl

resume-hold_example :
    ((resume (hold box host).0 400).0.kept ≡ map (queued_again 400) box.kept)
    × ((resume (hold box host).0 400).1 ≡ (hold box host).1)
resume-hold_example = resume-hold 400 host held_by_host box

due_in-resume_example :
    let s' = resume_one 400 (hold_one host thrice) in
    let out : Sending = record s' { next_ms = 2 ^ 64 - 1 } in
    (due_in s'.delivery 400 true s' ≡ some (out, send (1 ∷ []) (2 ∷ [])))
    × ((went_by (some 1000) (6 ∷ []) 410 out).delivery ≡ sent 4)
due_in-resume_example = due_in-resume thrice 3 400 410 1000 (6 ∷ []) refl refl (omega arith)

abbrev any_key : Bytes → Option ℕ
any_key k = some 0

abbrev agrees : Bytes → Bytes → ℕ → Bool
agrees proof packet identity = true

abbrev proof : Proof
proof = record { packet = 5 ∷ []; data_bytes = [] }

-- The second message is delivered.
proved_second : proved any_key agrees box proof friends ≡ (
  record {
    kept = waiting ∷ record thrice { delivery = delivered; next_ms = 2 ^ 64 - 1 } ∷ [];
    delivered_count = 1;
    failed_count = 0;
  },
  some (1 ∷ [], 2 ∷ []),
)
unfolding proved find_proved proof_for names_packet signed_by get change_first find same
    is_delivered
proved_second = refl

proved-Answers_example :
    Answers any_key agrees box proof friends (proved any_key agrees box proof friends)
proved-Answers_example = proved-Answers any_key agrees box proof friends
