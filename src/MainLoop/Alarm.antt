-- ===== src/MainLoop/Alarm.antt =====
-- What becomes of an alarm in `generateMessageIfNeeded` of main.cpp.
use ble_smoke_detector.Common.{
  ℕ, ◌%◌, ◌≡◌, ◌≢◌, ◌⊎◌, refl, ap, ◌∙◌, ltb, arith, Bool, true, false, ◌&&◌, ◌||◌, none, some, List,
  [], ◌∷◌, ◌++◌, get_or, Option-cases, Bool-cases, inl, inr, if_true, if_false,
}
use ble_smoke_detector.Common.Map.{string_key, lookup, insert, lookup-insert_self}
use ble_smoke_detector.Message.{Message}
use ble_smoke_detector.BleConnectionTracker.{BleConnectionTracker, message_at}
use ble_smoke_detector.BleConnectionTracker.Clock.{we_have_the_time}
use ble_smoke_detector.BleConnectionTracker.Packets.{
  store_message_and_return_if_new, enqueue_broadcast_packet, is_alive, base_of,
}
use ble_smoke_detector.MainLoop.{Program, active, with_tracker}
use ble_smoke_detector.MainLoop.Generate.{
  booted_string, still_alive_string, smoke_seen_string, message_content, message_id_of, id_mark,
  message_of, reset_flags, generate_message_if_needed, gpio_callback, smoke_seen_pin, publish,
  queue_if_new,
}

-- An alarm's text ends in "Smoke seen", whatever else is said before it.
pub message_content-smoke :
    (fresh_boot life_check : Bool)
    → (front : List ℕ) × (message_content fresh_boot true life_check ≡ front ++ smoke_seen_string)
unfolding message_content
message_content-smoke true true =
    (booted_string ++ (b'+' ∷ still_alive_string) ++ (b'+' ∷ []), refl)
message_content-smoke true false = (booted_string ++ (b'+' ∷ []), refl)
message_content-smoke false true = (still_alive_string ++ (b'+' ∷ []), refl)
message_content-smoke false false = ([], refl)

-- An alarm never has the id of a message that is not one, from any nodes and at any times.
pub message_id_of-smoke :
    (timestamp_ms timestamp_ms' sender sender' : ℕ)
    (fresh_boot fresh_boot' life_check life_check' : Bool)
    → message_id_of timestamp_ms sender fresh_boot true life_check
      ≢ message_id_of timestamp_ms' sender' fresh_boot' false life_check'
unfolding message_id_of
message_id_of-smoke timestamp_ms timestamp_ms' sender sender' fresh_boot fresh_boot' life_check
      life_check' same =
    let mark : id_mark fresh_boot true life_check % 256
        ≡ id_mark fresh_boot' false life_check' % 256 =
      ap (λ id. get_or id 8 0) same in
    ground arith

-- The program once a message is stored and queued.
abbrev pub queued : Message → Program → Program
queued m p =
    let t = p.connection_tracker in
    active (
      with_tracker
        (record t {
          messages = insert m.message_id m t.messages;
          broadcast_packets_to_send_list =
              t.broadcast_packets_to_send_list ++ (message_at m.message_id ∷ []);
        })
        p)

stored_alive :
    (m : Message) (t : BleConnectionTracker)
    → ltb 0 m.base.packet_ttl ≡ true
    → is_alive (record t { messages = insert m.message_id m t.messages }) (message_at m.message_id)
      ≡ true
unfolding is_alive base_of
stored_alive m t alive = rw (lookup-insert_self m.message_id m t.messages, is_alive, base_of) alive

store-new :
    (m : Message) (t : BleConnectionTracker)
    → m.base.malformed ≡ false
    → lookup m.message_id t.messages ≡ none
    → store_message_and_return_if_new m t
      ≡ (some (message_at m.message_id), record t { messages = insert m.message_id m t.messages })
unfolding store_message_and_return_if_new
store-new m t sound new =
    if_false m.base.malformed _ _ sound ∙ rw (new, store_message_and_return_if_new) refl

store-again :
    (m found : Message) (t : BleConnectionTracker)
    → m.base.malformed ≡ false
    → lookup m.message_id t.messages ≡ some found
    → store_message_and_return_if_new m t ≡ (none, t)
unfolding store_message_and_return_if_new
store-again m found t sound known =
    if_false m.base.malformed _ _ sound ∙ rw (known, store_message_and_return_if_new) refl

-- A message that was just stored may be queued where it has hops to go.
enqueue-stored :
    (m : Message) (t : BleConnectionTracker)
    → ltb 0 m.base.packet_ttl ≡ true
    → let t' = record t { messages = insert m.message_id m t.messages } in
      enqueue_broadcast_packet (message_at m.message_id) t' ≡ record t' {
        broadcast_packets_to_send_list =
            t.broadcast_packets_to_send_list ++ (message_at m.message_id ∷ []);
      }
unfolding enqueue_broadcast_packet
enqueue-stored m t alive =
    let t' = record t { messages = insert m.message_id m t.messages } in
    if_true (is_alive t' (message_at m.message_id)) _ t' (stored_alive m t alive)

publish-new :
    (m : Message) (p : Program)
    → m.base.malformed ≡ false
    → ltb 0 m.base.packet_ttl ≡ true
    → lookup m.message_id p.connection_tracker.messages ≡ none
    → publish m p ≡ queued m p
unfolding publish queue_if_new
publish-new m p sound alive new =
    ap (queue_if_new p) (store-new m p.connection_tracker sound new)
    ∙ ap (λ t. active (with_tracker t p)) (enqueue-stored m p.connection_tracker alive)

publish-again :
    (m found : Message) (p : Program)
    → m.base.malformed ≡ false
    → lookup m.message_id p.connection_tracker.messages ≡ some found
    → publish m p ≡ p
unfolding publish queue_if_new
publish-again m found p sound known =
    ap (queue_if_new p) (store-again m found p.connection_tracker sound known)

-- The condition of `generateMessageIfNeeded`.
abbrev is_due : Program → Bool
is_due p = we_have_the_time p.connection_tracker && (p.fresh_boot || (p.smoke_seen || p.life_check))

due-smoke :
    (p : Program)
    → we_have_the_time p.connection_tracker ≡ true
    → p.smoke_seen ≡ true
    → is_due p ≡ true
due-smoke p timed pending = ground arith

message_of_sound :
    (time_us sender : ℕ) (p : Program) → (message_of time_us sender p).base.malformed ≡ false
unfolding message_of
message_of_sound time_us sender p = refl

message_of_alive :
    (time_us sender : ℕ) (p : Program) → ltb 0 (message_of time_us sender p).base.packet_ttl ≡ true
unfolding message_of
message_of_alive time_us sender p = refl

-- Once the time is known, a pending alarm whose id no stored message has is stored, and queued behind
-- all that was queued; what else was stored and queued stays, and no flag is left.
pub generate-new :
    (time_us sender : ℕ) (p : Program)
    → we_have_the_time p.connection_tracker ≡ true
    → p.smoke_seen ≡ true
    → lookup (message_of time_us sender p).message_id p.connection_tracker.messages ≡ none
    → generate_message_if_needed time_us sender p
      ≡ queued (message_of time_us sender p) (reset_flags p)
unfolding generate_message_if_needed
generate-new time_us sender p timed pending new =
    let due = due-smoke p timed pending in
    if_true (is_due p) _ p due
    ∙ publish-new (message_of time_us sender p) (reset_flags p) (message_of_sound time_us sender p)
        (message_of_alive time_us sender p) new

-- Once the time is known, a pending alarm whose id a stored message has leaves everything as it is but the
-- flags, which are reset: a second alarm in the same minute is not sent.
pub generate-again :
    (time_us sender : ℕ) (p : Program) (found : Message)
    → we_have_the_time p.connection_tracker ≡ true
    → p.smoke_seen ≡ true
    → lookup (message_of time_us sender p).message_id p.connection_tracker.messages ≡ some found
    → generate_message_if_needed time_us sender p ≡ reset_flags p
unfolding generate_message_if_needed
generate-again time_us sender p found timed pending known =
    let due = due-smoke p timed pending in
    if_true (is_due p) _ p due
    ∙ publish-again (message_of time_us sender p) found (reset_flags p)
        (message_of_sound time_us sender p) known

-- An alarm that is pending stays pending until the time is known; then its flag is reset, and a message
-- with its id is stored.
pub generate-alarm :
    (time_us sender : ℕ) (p : Program)
    → p.smoke_seen ≡ true
    → let p' = generate_message_if_needed time_us sender p in
      ((we_have_the_time p.connection_tracker ≡ false) × (p' ≡ p))
      ⊎ ((p'.smoke_seen ≡ false)
          × ((m : Message) × (lookup
                  (message_of time_us sender p).message_id
                  p'.connection_tracker.messages
                ≡ some m)))
unfolding generate_message_if_needed
generate-alarm time_us sender p pending =
    elim (Bool-cases (we_have_the_time p.connection_tracker)) [
      | inr untimed ↦ inl (
        untimed,
        if_false (is_due p) _ p
            (ap (λ b. b && (p.fresh_boot || (p.smoke_seen || p.life_check))) untimed),
      )
      | inl timed ↦
          let m = message_of time_us sender p in
          elim (Option-cases (lookup m.message_id p.connection_tracker.messages)) [
            | inl new ↦
                let e = generate-new time_us sender p timed pending new in
                inr (
                  ap (λ q. q.smoke_seen) e,
                  (
                    m,
                    ap (λ q. lookup m.message_id q.connection_tracker.messages) e
                        ∙ lookup-insert_self m.message_id m p.connection_tracker.messages,
                  ),
                )
            | inr (found, known) ↦
                let e = generate-again time_us sender p found timed pending known in
                inr (
                  ap (λ q. q.smoke_seen) e,
                  (found, ap (λ q. lookup m.message_id q.connection_tracker.messages) e ∙ known),
                )
          ]
    ]

-- A falling edge at the smoke detector's pin, the edge that the code takes for an alarm, once the time is known
-- and where no stored message has the alarm's id, ends in a stored message, queued behind all that was queued,
-- that says "Smoke seen" last.
pub gpio_callback-generate :
    (time_us sender : ℕ) (p : Program)
    → we_have_the_time p.connection_tracker ≡ true
    → lookup
        (message_of time_us sender (gpio_callback smoke_seen_pin true p)).message_id
        p.connection_tracker.messages
      ≡ none
    → let p' = gpio_callback smoke_seen_pin true p in
      let m = message_of time_us sender p' in
      (generate_message_if_needed time_us sender p' ≡ queued m (reset_flags p'))
      × ((front : List ℕ) × (m.content ≡ front ++ smoke_seen_string))
unfolding gpio_callback message_of
gpio_callback-generate time_us sender p timed new = (
  generate-new time_us sender (gpio_callback smoke_seen_pin true p) timed refl new,
  message_content-smoke p.fresh_boot p.life_check,
)
