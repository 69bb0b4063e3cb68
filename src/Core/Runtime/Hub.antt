-- ===== src/Core/Runtime/Hub.antt =====
-- Subscriptions: crates/oikade-core/src/runtime/subscription.rs, and `subscribe` and
-- `subscribe_topology` of runtime.rs. The two kinds of subscription share this code.
use oikade.Prelude.{ℕ, ◌+◌, Option, none, some, List, [], ◌∷◌, ◌==◌, if◌then◌else◌}
use oikade.Prelude.Maps.{Map, insert, remove, nat_key}
use oikade.Core.Runtime.Types.{
  Host, SendOutcome, sent, full, closed, RuntimeError, slow_consumer, Mailbox, SubscriptionState,
  Hub,
}

abbrev pub max_subscription_buffer : ℕ
max_subscription_buffer = 4096

abbrev pub note_closed : SendOutcome → ℕ → List ℕ → List ℕ
note_closed sent id ids = ids
note_closed full id ids = id ∷ ids
note_closed closed id ids = id ∷ ids

abbrev pub remove_all : List ℕ → Map ℕ SubscriptionState → Map ℕ SubscriptionState
remove_all [] m = m
remove_all (id ∷ ids) m = remove_all ids (remove id m)

module _ {H : Host} {T : Type 0} where
  -- A write to one shared mailbox.
  unfoldable pub put : ℕ → Mailbox H T → (ℕ → Mailbox H T) → ℕ → Mailbox H T
  put i box boxes j = if i == j then box else boxes j

  unfoldable pub set_terminal : RuntimeError → Mailbox H T → Mailbox H T
  set_terminal e box = record box { terminal = some e }

  -- One round of the loop of `dispatch_events`: what becomes of the mailbox.
  unfoldable pub send_to : T → Mailbox H T → SendOutcome × Mailbox H T
  unfolding set_terminal
  send_to event box = after (H.try_send T event box.queue)
    where
      after : SendOutcome × H.Chan T → SendOutcome × Mailbox H T
      after (sent, q) = (sent, record box { queue = q })
      after (full, q) = (full, set_terminal slow_consumer (record box { queue = q }))
      after (closed, q) = (closed, record box { queue = q })

  -- The loop over the subscriptions, which gathers the identifiers to remove.
  unfoldable pub send_all :
      T → Map ℕ SubscriptionState → (ℕ → Mailbox H T) → List ℕ × (ℕ → Mailbox H T)
  unfolding send_to put
  send_all event [] boxes = ([], boxes)
  send_all event ((id, s) ∷ rest) boxes =
      let (outcome, box) = send_to event (boxes s.mailbox) in
      let (ids, boxes') = send_all event rest (put s.mailbox box boxes) in
      (note_closed outcome id ids, boxes')

  -- `dispatch_events` and `dispatch_topology`
  unfoldable pub dispatch : T → Hub H T → Hub H T
  unfolding send_all
  dispatch event hub =
      let (ids, boxes) = send_all event hub.subscriptions hub.mailboxes in
      record hub { subscriptions = remove_all ids hub.subscriptions; mailboxes = boxes }

  unfoldable pub terminate_all :
      RuntimeError → Map ℕ SubscriptionState → (ℕ → Mailbox H T) → ℕ → Mailbox H T
  unfolding put set_terminal
  terminate_all e [] boxes = boxes
  terminate_all e ((id, s) ∷ rest) boxes =
      terminate_all e rest (put s.mailbox (set_terminal e (boxes s.mailbox)) boxes)

  unfoldable pub close_all : RuntimeError → Hub H T → Hub H T
  unfolding terminate_all
  close_all e hub = record hub {
    subscriptions = [];
    mailboxes = terminate_all e hub.subscriptions hub.mailboxes;
  }

  -- The body of `subscribe`: a new identifier, a channel and a terminal cell. The mailbox stands
  -- at the place of the identifier.
  unfoldable pub add_subscription : ℕ → Hub H T → ℕ × Hub H T
  unfolding put
  add_subscription buffer hub =
      let id = hub.next_subscriber + 1 in
      (
        id,
        record {
          subscriptions = insert id (record { mailbox = id }) hub.subscriptions;
          next_subscriber = id;
          mailboxes = put id (record { queue = H.channel T buffer; terminal = none }) hub.mailboxes;
        },
      )

  -- `Subscription::cancel`
  unfoldable pub cancel : ℕ → Hub H T → Hub H T
  unfolding put
  cancel id hub =
      let box = hub.mailboxes id in
      record hub {
        subscriptions = remove id hub.subscriptions;
        mailboxes = put id (record box { queue = H.close T box.queue }) hub.mailboxes;
      }

  -- `Subscription::recv`, when the buffer holds an event.
  unfoldable pub recv : ℕ → Hub H T → Option T × Hub H T
  unfolding put
  recv id hub =
      let box = hub.mailboxes id in
      let (event, queue) = H.recv T box.queue in
      (event, record hub { mailboxes = put id (record box { queue = queue }) hub.mailboxes })
