-- ===== src/MainLoop/Sound.antt =====
-- A turn of the loop of `main` in main.cpp leaves no pointer dangling.
use ble_smoke_detector.Common.{
  ℕ, ◌≡◌, refl, ◌==◌, Bool, true, false, Option, none, some, List, [], ◌∷◌, if◌then◌else◌,
}
use ble_smoke_detector.Common.Map.{string_key}
use ble_smoke_detector.BleConnection.{BleConnection}
use ble_smoke_detector.BleConnectionTracker.{BleConnectionTracker}
use ble_smoke_detector.BleConnectionTracker.Sending.{send_packets}
use ble_smoke_detector.BleConnectionTracker.Connections.{
  set_connection_started, get_connectable_neighbours,
}
use ble_smoke_detector.BleConnectionTracker.Linked.{IsLinked, Keeps-same}
use ble_smoke_detector.BleConnectionTracker.Linked.Links.{
  Keeps-set_connection_started, Keeps-announce_to_connections,
}
use ble_smoke_detector.BleConnectionTracker.Cleanup.Dangling.{cleanup_stale_items-IsLinked}
use ble_smoke_detector.BleConnectionTracker.Sending.Links.{Keeps-send_packets}
use ble_smoke_detector.MainLoop.{Program, active, with_tracker}
use ble_smoke_detector.MainLoop.Generate.{generate_message_if_needed}
use ble_smoke_detector.MainLoop.Events.{
  connect_fresh, connect_known, connect_first, connect_to_first_neighbour,
}
use ble_smoke_detector.MainLoop.Turn.{
  Loop, World, Readings, TurnTimes, announce_if_due, connect_if_due, send_if_due, flash_if_due,
  turn_off_if_due, scan_if_due, clean_up_if_due, turn, announce_due, announce_now, connect_due,
  attempted, send_due, sent_packets, flash_due, try_to_off_due, try_to_off, may_turn_off, scan_due,
  scan_now, clean_up_due, clean_up_now,
}
use ble_smoke_detector.MainLoop.Invariant.{Grows, Grows-generate}

-- No pointer of the program dangles.
pub record IsSound (l : Loop) : Type 0 where
  pub linked : IsLinked l.program.connection_tracker

IsSound-if : (b : Bool) (x y : Loop) → IsSound x → IsSound y → IsSound (if b then x else y)
IsSound-if true x y h k = h
IsSound-if false x y h k = k

Keeps-active :
    (b : Bool) (t : BleConnectionTracker) (p : Program)
    → IsLinked p.connection_tracker
    → IsLinked (if b then active p else p).connection_tracker
Keeps-active true t p h = h
Keeps-active false t p h = h

started_or_not :
    (b : Bool) (address : List ℕ) (p : Program)
    → Grows p
        (if◌then◌else◌ {A = Bool × Program} b
          (
            true,
            record p {
              connection_tracker = set_connection_started address p.connection_tracker;
              connection_in_progress = true;
            },
          )
          (false, p)).1
started_or_not true address p = Keeps-set_connection_started address p.connection_tracker
started_or_not false address p = Keeps-same p.connection_tracker

Grows-connect_fresh :
    (gap_connect : List ℕ → ℕ → ℕ) (neighbour : BleConnection) (p : Program) (there : Option ℕ)
    → Grows p (connect_fresh gap_connect neighbour p there).1
unfolding connect_fresh
Grows-connect_fresh gap_connect neighbour p (some handle) = Keeps-same p.connection_tracker
Grows-connect_fresh gap_connect neighbour p none =
    started_or_not (gap_connect neighbour.bt_address neighbour.bt_address_type == 0)
      neighbour.bt_address p

Grows-connect_known :
    (gap_connect : List ℕ → ℕ → ℕ) (p : Program) (known : Option BleConnection)
    → Grows p (connect_known gap_connect p known).1
unfolding connect_known
Grows-connect_known gap_connect p none = Keeps-same p.connection_tracker
Grows-connect_known gap_connect p (some neighbour) = Grows-connect_fresh gap_connect neighbour p _

Grows-connect_first :
    (gap_connect : List ℕ → ℕ → ℕ) (p : Program) (keys : List (List ℕ))
    → Grows p (connect_first gap_connect p keys).1
unfolding connect_first
Grows-connect_first gap_connect p [] = Keeps-same p.connection_tracker
Grows-connect_first gap_connect p (key ∷ rest) = Grows-connect_known gap_connect p _

-- What only sets the clock's readings or flags.
pub IsSound-same :
    (l l' : Loop)
    → l'.program.connection_tracker ≡ l.program.connection_tracker
    → IsSound l
    → IsSound l'
IsSound-same l l' e h = record { linked = rw e h.linked }

announce_if_due-IsSound :
    (now after : ℕ) (w : World) (l : Loop) → IsSound l → IsSound (announce_if_due now after w l)
unfolding announce_if_due
announce_if_due-IsSound now after w l h =
    IsSound-if (announce_due l) (announce_now now after w l) l
      (record {
        linked =
            (Keeps-announce_to_connections now w.my_sender_id l.program.connection_tracker).linked
              h.linked;
      })
      h

connect_if_due-IsSound :
    (at : Readings) (w : World) (l : Loop) → IsSound l → IsSound (connect_if_due at w l)
unfolding connect_if_due connect_to_first_neighbour
connect_if_due-IsSound at w l h =
    let (connecting, p) = connect_to_first_neighbour w.gap_connect l.program in
    let keys = get_connectable_neighbours l.program.connection_tracker in
    IsSound-if (connect_due l) (attempted at l connecting p) l
      (record { linked = (Grows-connect_first w.gap_connect l.program keys).linked h.linked }) h

send_if_due-IsSound :
    (after : ℕ) (w : World) (l : Loop) → IsSound l → IsSound (send_if_due after w l)
unfolding send_if_due
send_if_due-IsSound after w l h =
    let t = l.program.connection_tracker in
    let (sent, t') = send_packets w.stack w.address t in
    IsSound-if (send_due l) (sent_packets after l sent t') l
      (record {
        linked =
            Keeps-active sent t (with_tracker t' l.program)
              ((Keeps-send_packets w.stack w.address t h.linked).linked h.linked);
      })
      h

flash_if_due-IsSound : (after : ℕ) (l : Loop) → IsSound l → IsSound (flash_if_due after l)
flash_if_due-IsSound after l h =
    let m = record l { last_flash = after } in
    IsSound-if (flash_due l) m l (IsSound-same l m refl h) h

turn_off_if_due-IsSound : (after : ℕ) (l : Loop) → IsSound l → IsSound (turn_off_if_due after l)
unfolding turn_off_if_due
turn_off_if_due-IsSound after l h =
    let gone = record l { kept_alive = false } in
    let later = record l { last_try_to_off = after } in
    IsSound-if (try_to_off_due l) (try_to_off after l) l
      (IsSound-if (may_turn_off l) gone later (IsSound-same l gone refl h)
        (IsSound-same l later refl h))
      h

scan_if_due-IsSound :
    (scanned_at restarted_at sent_at : ℕ) (l : Loop)
    → IsSound l
    → IsSound (scan_if_due scanned_at restarted_at sent_at l)
unfolding scan_if_due
scan_if_due-IsSound scanned_at restarted_at sent_at l h =
    let m = scan_now scanned_at restarted_at sent_at l in
    IsSound-if (scan_due l) m l (IsSound-same l m refl h) h

clean_up_if_due-IsSound :
    (now after : ℕ) (l : Loop) → IsSound l → IsSound (clean_up_if_due now after l)
unfolding clean_up_if_due
clean_up_if_due-IsSound now after l h =
    IsSound-if (clean_up_due l) (clean_up_now now after l) l
      (record { linked = cleanup_stale_items-IsLinked now l.program.connection_tracker h.linked }) h

-- A turn of the loop from a sound state leads to one.
pub turn-IsSound : (at : TurnTimes) (w : World) (l : Loop) → IsSound l → IsSound (turn at w l)
unfolding turn
turn-IsSound at w l h =
    let begun = record l {
      program = generate_message_if_needed at.generating w.my_sender_id l.program;
      loop_start = at.start;
    } in
    let begun-IsSound : IsSound begun = record {
      linked = (Grows-generate at.generating w.my_sender_id l.program).linked h.linked;
    } in
    let announced = announce_if_due at.announcing at.announced w begun in
    let connected = connect_if_due at.connecting w announced in
    let sent = send_if_due at.sent w connected in
    let flashed = flash_if_due at.flashed sent in
    let off = turn_off_if_due at.tried_to_off flashed in
    let scanned = scan_if_due at.scanned at.scan_restarted at.scan_sent off in
    let cleaned = clean_up_if_due at.cleaning at.cleaned scanned in
    IsSound-same cleaned (turn at w l) refl (
      clean_up_if_due-IsSound at.cleaning at.cleaned scanned (
        scan_if_due-IsSound at.scanned at.scan_restarted at.scan_sent off (
          turn_off_if_due-IsSound at.tried_to_off flashed (
            flash_if_due-IsSound at.flashed sent (
              send_if_due-IsSound at.sent w connected (
                connect_if_due-IsSound at.connecting w announced
                  (announce_if_due-IsSound at.announcing at.announced w begun begun-IsSound)))))))
