-- ===== src/MainLoop/Generate.antt =====
-- `generateMessageIfNeeded` and `gpio_callback` of main.cpp. A pin that falls between the copy of a flag
-- and its reset has no counterpart: the two are one step.
use ble_smoke_detector.Common.{
  ℕ, ◌*◌, ◌/◌, ◌%◌, ◌^◌, ◌==◌, Bool, true, false, ◌&&◌, ◌||◌, Option, none, some, List, [], ◌∷◌,
  if◌then◌else◌,
}
use ble_smoke_detector.BinaryWriter.{write_data, write_uint8, write_uint64, write_uint8_hex16}
use ble_smoke_detector.Message.{
  Message, new_message, set_content, set_message_id, set_channel, set_latitude_i, set_longitude_i,
  set_altitude, set_sender_nickname,
}
use ble_smoke_detector.BleConnectionTracker.{BleConnectionTracker, PacketRef}
use ble_smoke_detector.BleConnectionTracker.Clock.{get_time_ms, we_have_the_time}
use ble_smoke_detector.BleConnectionTracker.Connections.{service_name}
use ble_smoke_detector.BleConnectionTracker.Packets.{
  store_message_and_return_if_new, enqueue_broadcast_packet,
}
use ble_smoke_detector.MainLoop.{Program, active, with_tracker}

abbrev pub booted_string : List ℕ
booted_string = b'B' ∷ b'o' ∷ b'o' ∷ b't' ∷ b'e' ∷ b'd' ∷ []

abbrev pub still_alive_string : List ℕ
still_alive_string = b'S' ∷ b't' ∷ b'i' ∷ b'l' ∷ b'l' ∷ b' ' ∷ b'a' ∷ b'l' ∷ b'i' ∷ b'v' ∷ b'e' ∷ []

abbrev pub smoke_seen_string : List ℕ
smoke_seen_string = b'S' ∷ b'm' ∷ b'o' ∷ b'k' ∷ b'e' ∷ b' ' ∷ b's' ∷ b'e' ∷ b'e' ∷ b'n' ∷ []

-- "#smoke"
abbrev pub smoke_channel : List ℕ
smoke_channel = b'#' ∷ b's' ∷ b'm' ∷ b'o' ∷ b'k' ∷ b'e' ∷ []

-- What the message says.
unfoldable pub message_content : Bool → Bool → Bool → List ℕ
unfolding write_data write_uint8
message_content fresh_boot smoke_seen life_check =
    let booted = if fresh_boot then write_data booted_string 6 [] else [] in
    let joined =
      if fresh_boot && (life_check || smoke_seen) then write_uint8 b'+' booted else booted in
    let alive = if life_check then write_data still_alive_string 11 joined else joined in
    if smoke_seen
    then write_data smoke_seen_string 10 (if life_check then write_uint8 b'+' alive else alive)
    else alive

abbrev pub id_mark : Bool → Bool → Bool → ℕ
id_mark fresh_boot smoke_seen life_check =
    if fresh_boot && (smoke_seen && life_check)
    then b'*'
    else if fresh_boot && smoke_seen
    then b'+'
    else if smoke_seen
    then b'!'
    else if life_check
    then b'-'
    else b'?'

-- The time in whole minutes.
abbrev pub to_minutes : ℕ → ℕ
to_minutes timestamp_ms = timestamp_ms / 1000 / 60 * 60 * 1000

unfoldable pub message_id_of : ℕ → ℕ → Bool → Bool → Bool → List ℕ
unfolding write_uint64 write_uint8
message_id_of timestamp_ms sender fresh_boot smoke_seen life_check =
    write_uint64 sender
      (write_uint8 (id_mark fresh_boot smoke_seen life_check) (write_uint64 timestamp_ms []))

-- The name, with the last two bytes of the board's id; `sender` holds its bytes from the lowest on.
unfoldable pub nickname_of : ℕ → List ℕ
unfolding write_data write_uint8_hex16
nickname_of sender = write_uint8_hex16 (sender / 2 ^ 56 % 256) (
    write_uint8_hex16 (sender / 2 ^ 48 % 256)
      (write_data (b':' ∷ []) 1 (write_data service_name 13 [])))

-- The message of a program with these flags.
unfoldable pub message_of : ℕ → ℕ → Program → Message
unfolding get_time_ms new_message message_content message_id_of nickname_of
message_of time_us sender p =
    let t = p.connection_tracker in
    let timestamp_ms = to_minutes (get_time_ms time_us t) in
    set_sender_nickname (nickname_of sender) (
      set_altitude t.prefs.altitude (
        set_longitude_i t.prefs.longitude_i (
          set_latitude_i t.prefs.latitude_i (
            set_channel smoke_channel (
              set_message_id
                (message_id_of timestamp_ms sender p.fresh_boot p.smoke_seen p.life_check)
                (set_content (message_content p.fresh_boot p.smoke_seen p.life_check)
                  (new_message 3 timestamp_ms 0 sender 0)))))))

-- Each flag that is set is reset once it is in the message.
abbrev pub reset_flags : Program → Program
reset_flags p = record p { fresh_boot = false; smoke_seen = false; life_check = false }

-- The last `if`: a message that is new is queued.
unfoldable pub queue_if_new : Program → Option PacketRef × BleConnectionTracker → Program
unfolding enqueue_broadcast_packet
queue_if_new p (none, t) = with_tracker t p
queue_if_new p (some packet, t) = active (with_tracker (enqueue_broadcast_packet packet t) p)

-- The message is stored and, where it is new, queued.
unfoldable pub publish : Message → Program → Program
unfolding store_message_and_return_if_new queue_if_new
publish message p = queue_if_new p (store_message_and_return_if_new message p.connection_tracker)

-- `generateMessageIfNeeded`
unfoldable pub generate_message_if_needed : ℕ → ℕ → Program → Program
unfolding message_of publish
generate_message_if_needed time_us sender p =
    if we_have_the_time p.connection_tracker && (p.fresh_boot || (p.smoke_seen || p.life_check))
    then publish (message_of time_us sender p) (reset_flags p)
    else p

abbrev pub exit_gpio_pin : ℕ
exit_gpio_pin = 28

abbrev pub smoke_seen_pin : ℕ
smoke_seen_pin = 17

abbrev pub life_check_pin : ℕ
life_check_pin = 18

-- `gpio_callback`; whether `events` has the bit `GPIO_IRQ_EDGE_FALL` is the second argument.
unfoldable pub gpio_callback : ℕ → Bool → Program → Program
gpio_callback gpio edge_fall p =
    let p' = active p in
    record p' {
      keep_running = if (gpio == exit_gpio_pin) && edge_fall then false else p.keep_running;
      smoke_seen = if (gpio == smoke_seen_pin) && edge_fall then true else p.smoke_seen;
      life_check = if (gpio == life_check_pin) && edge_fall then true else p.life_check;
    }
