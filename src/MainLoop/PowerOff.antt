-- ===== src/MainLoop/PowerOff.antt =====
-- When the loop of `main` in main.cpp lets the power supply go.
use ble_smoke_detector.Common.{
  ℕ, ◌<◌, ◌≡◌, refl, ap, ◌∙◌, Bool, true, false, ◌&&◌, ◌||◌, not, Option, none, some, List, [], ◌∷◌,
  ◌==◌, if◌then◌else◌, if_true, if_false, lt→ltb, subst, sym,
}
use ble_smoke_detector.Common.Map.{string_key}
use ble_smoke_detector.BleConnection.{BleConnection}
use ble_smoke_detector.BleConnectionTracker.{BleConnectionTracker}
use ble_smoke_detector.BleConnectionTracker.Clock.{we_have_the_time}
use ble_smoke_detector.BleConnectionTracker.Packets.{have_packets_to_send}
use ble_smoke_detector.BleConnectionTracker.Connections.{set_connection_started}
use ble_smoke_detector.BleConnectionTracker.Sending.{
  send_packets, send_broadcast, send_all_targeted,
}
use ble_smoke_detector.MainLoop.{Program}
use ble_smoke_detector.MainLoop.Generate.{generate_message_if_needed}
use ble_smoke_detector.MainLoop.Events.{
  connect_fresh, connect_known, connect_first, connect_to_first_neighbour,
}
use ble_smoke_detector.MainLoop.Turn.{
  Loop, World, Readings, TurnTimes, since, twenty_seconds_in_us, announce_if_due, connect_if_due,
  connect_due, attempted, send_if_due, send_due, sent_packets, flash_if_due, flash_due,
  turn_off_if_due, try_to_off_due, try_to_off, scan_if_due, scan_due, scan_now, clean_up_if_due,
  clean_up_due, clean_up_now, turn,
}

-- An alarm is pending, the time is not known, and no packet waits to be sent.
pub record IsUnsent (p : Program) : Type 0 where
  pub alarm : p.smoke_seen ≡ true
  pub untimed : we_have_the_time p.connection_tracker ≡ false
  pub nothing : have_packets_to_send p.connection_tracker ≡ false

-- Besides, more than 20 s have gone since the power was last tried to be let go.
record IsLate (l : Loop) : Type 0 where
  unsent : IsUnsent l.program
  late : twenty_seconds_in_us < since l.loop_start l.last_try_to_off

none_due : (b c : Bool) → b ≡ false → (b && c) ≡ false
none_due true c h = absurd cc
none_due false c h = refl

second_none_due : (a b c : Bool) → b ≡ false → (a && (b && c)) ≡ false
second_none_due true b c h = none_due b c h
second_none_due false b c h = refl

either_true : (b c : Bool) → b ≡ false → (not b || c) ≡ true
either_true true c h = absurd cc
either_true false c h = refl

IsLate-if : (b : Bool) (x y : Loop) → IsLate x → IsLate y → IsLate (if b then x else y)
IsLate-if true x y h k = h
IsLate-if false x y h k = k

started-IsUnsent :
    (b : Bool) (address : List ℕ) (p : Program)
    → IsUnsent p
    → IsUnsent
        (if◌then◌else◌ {A = Bool × Program} b
          (
            true,
            record p {
              connection_tracker = set_connection_started address p.connection_tracker;
              connection_in_progress = true;
            },
          )
          (false, p)).1
unfolding set_connection_started
started-IsUnsent true address p h = record {
  alarm = h.alarm;
  untimed = h.untimed;
  nothing = h.nothing;
}
started-IsUnsent false address p h = h

connect_fresh-IsUnsent :
    (gap_connect : List ℕ → ℕ → ℕ) (neighbour : BleConnection) (p : Program) (there : Option ℕ)
    → IsUnsent p
    → IsUnsent (connect_fresh gap_connect neighbour p there).1
unfolding connect_fresh
connect_fresh-IsUnsent gap_connect neighbour p (some handle) h = h
connect_fresh-IsUnsent gap_connect neighbour p none h =
    started-IsUnsent (gap_connect neighbour.bt_address neighbour.bt_address_type == 0)
      neighbour.bt_address p h

connect_known-IsUnsent :
    (gap_connect : List ℕ → ℕ → ℕ) (p : Program) (known : Option BleConnection)
    → IsUnsent p
    → IsUnsent (connect_known gap_connect p known).1
unfolding connect_known
connect_known-IsUnsent gap_connect p none h = h
connect_known-IsUnsent gap_connect p (some neighbour) h =
    connect_fresh-IsUnsent gap_connect neighbour p _ h

connect_first-IsUnsent :
    (gap_connect : List ℕ → ℕ → ℕ) (p : Program) (keys : List (List ℕ))
    → IsUnsent p
    → IsUnsent (connect_first gap_connect p keys).1
unfolding connect_first
connect_first-IsUnsent gap_connect p [] h = h
connect_first-IsUnsent gap_connect p (key ∷ rest) h = connect_known-IsUnsent gap_connect p _ h

generate-IsLate :
    (at : TurnTimes) (sender : ℕ) (l : Loop)
    → IsUnsent l.program
    → twenty_seconds_in_us < since at.start l.last_try_to_off
    → IsLate (record l {
      program = generate_message_if_needed at.generating sender l.program;
      loop_start = at.start;
    })
unfolding generate_message_if_needed
generate-IsLate at sender l h late =
    let p = l.program in
    let same : generate_message_if_needed at.generating sender p ≡ p =
      if_false _ _ p (none_due (we_have_the_time p.connection_tracker) _ h.untimed) in
    record {
      unsent = record {
        alarm = ap (λ q. q.smoke_seen) same ∙ h.alarm;
        untimed = ap (λ q. we_have_the_time q.connection_tracker) same ∙ h.untimed;
        nothing = ap (λ q. have_packets_to_send q.connection_tracker) same ∙ h.nothing;
      };
      late = late;
    }

announce_if_due-same :
    (now after : ℕ) (w : World) (l : Loop) → IsLate l → announce_if_due now after w l ≡ l
unfolding announce_if_due
announce_if_due-same now after w l h = if_false _ _ l (
    second_none_due (not l.program.scanning) (we_have_the_time l.program.connection_tracker) _
      h.unsent.untimed)

connect_if_due-IsLate :
    (at : Readings) (w : World) (l : Loop)
    → IsLate l
    → twenty_seconds_in_us < since at.restarted_at l.last_try_to_off
    → IsLate (connect_if_due at w l)
unfolding connect_if_due connect_to_first_neighbour
connect_if_due-IsLate at w l h late =
    let (connecting, p) = connect_to_first_neighbour w.gap_connect l.program in
    IsLate-if (connect_due l) (attempted at l connecting p) l
      (record { unsent = connect_first-IsUnsent w.gap_connect l.program _ h.unsent; late = late }) h

none_sent :
    (b : Bool) (t t' : BleConnectionTracker)
    → b ≡ false
    → if◌then◌else◌ {A = Bool × BleConnectionTracker} b (true, t') (false, t) ≡ (false, t)
none_sent true t t' h = absurd cc
none_sent false t t' h = refl

sent_packets-IsLate :
    (after : ℕ) (l : Loop) (r : Bool × BleConnectionTracker)
    → r ≡ (false, l.program.connection_tracker)
    → IsLate l
    → IsLate (sent_packets after l r.0 r.1)
sent_packets-IsLate after l r e h = record {
  unsent = record {
    alarm =
        ap (λ (q : Bool × BleConnectionTracker). (sent_packets after l q.0 q.1).program.smoke_seen)
          e
        ∙ h.unsent.alarm;
    untimed =
        ap
          (λ (q : Bool × BleConnectionTracker).
            we_have_the_time (sent_packets after l q.0 q.1).program.connection_tracker)
          e
        ∙ h.unsent.untimed;
    nothing =
        ap
          (λ (q : Bool × BleConnectionTracker).
            have_packets_to_send (sent_packets after l q.0 q.1).program.connection_tracker)
          e
        ∙ h.unsent.nothing;
  };
  late = h.late;
}

send_if_due-IsLate : (after : ℕ) (w : World) (l : Loop) → IsLate l → IsLate (send_if_due after w l)
unfolding send_if_due send_packets
send_if_due-IsLate after w l h =
    let t = l.program.connection_tracker in
    IsLate-if (send_due l) _ l
      (sent_packets-IsLate after l (send_packets w.stack w.address t)
        (none_sent (have_packets_to_send t) t
          (send_broadcast w.stack w.address (send_all_targeted w.stack w.address t))
          h.unsent.nothing)
        h)
      h

flash_if_due-IsLate : (after : ℕ) (l : Loop) → IsLate l → IsLate (flash_if_due after l)
flash_if_due-IsLate after l h =
    IsLate-if (flash_due l) (record l { last_flash = after }) l
      (record { unsent = h.unsent; late = h.late }) h

-- The power is let go, and the alarm is pending still.
record IsOff (l : Loop) : Type 0 where
  off : l.kept_alive ≡ false
  alarm : l.program.smoke_seen ≡ true

IsOff-if : (b : Bool) (x y : Loop) → IsOff x → IsOff y → IsOff (if b then x else y)
IsOff-if true x y h k = h
IsOff-if false x y h k = k

turn_off_if_due-IsOff : (after : ℕ) (l : Loop) → IsLate l → IsOff (turn_off_if_due after l)
unfolding turn_off_if_due
turn_off_if_due-IsOff after l h =
    let due : try_to_off_due l ≡ true =
      lt→ltb twenty_seconds_in_us (since l.loop_start l.last_try_to_off) h.late in
    let gone = record l { kept_alive = false } in
    let let_go : (if try_to_off_due l then try_to_off after l else l) ≡ gone =
      if_true _ (try_to_off after l) l due
      ∙ if_true _ gone (record l { last_try_to_off = after })
          (either_true (have_packets_to_send l.program.connection_tracker) _ h.unsent.nothing) in
    record {
      off = ap (λ k. k.kept_alive) let_go;
      alarm = ap (λ k. k.program.smoke_seen) let_go ∙ h.unsent.alarm;
    }

scan_if_due-IsOff :
    (scanned_at restarted_at sent_at : ℕ) (l : Loop)
    → IsOff l
    → IsOff (scan_if_due scanned_at restarted_at sent_at l)
unfolding scan_if_due
scan_if_due-IsOff scanned_at restarted_at sent_at l h =
    IsOff-if (scan_due l) (scan_now scanned_at restarted_at sent_at l) l
      (record { off = h.off; alarm = h.alarm }) h

clean_up_if_due-IsOff : (now after : ℕ) (l : Loop) → IsOff l → IsOff (clean_up_if_due now after l)
unfolding clean_up_if_due
clean_up_if_due-IsOff now after l h =
    IsOff-if (clean_up_due l) (clean_up_now now after l) l (record { off = h.off; alarm = h.alarm })
      h

-- A turn lets the power go, and leaves an alarm pending that was, where the time is not known, so that there is
-- no message about the alarm, no packet waits to be sent, and more than 20 s have gone since the power was last
-- tried to be let go, by the reading at the turn's start as by the one behind an attempt to connect.
pub turn-kept_alive :
    (at : TurnTimes) (w : World) (l : Loop)
    → IsUnsent l.program
    → twenty_seconds_in_us < since at.start l.last_try_to_off
    → twenty_seconds_in_us < since at.connecting.restarted_at l.last_try_to_off
    → ((turn at w l).kept_alive ≡ false) × ((turn at w l).program.smoke_seen ≡ true)
unfolding turn
turn-kept_alive at w l unsent late late' =
    let begun = record l {
      program = generate_message_if_needed at.generating w.my_sender_id l.program;
      loop_start = at.start;
    } in
    let h = generate-IsLate at w.my_sender_id l unsent late in
    let announced = announce_if_due-same at.announcing at.announced w begun h in
    let connected =
      subst (λ k. IsLate (connect_if_due at.connecting w k)) (sym announced)
        (connect_if_due-IsLate at.connecting w begun h late') in
    let sent = send_if_due-IsLate at.sent w _ connected in
    let off = turn_off_if_due-IsOff at.tried_to_off _ (flash_if_due-IsLate at.flashed _ sent) in
    let cleaned =
      clean_up_if_due-IsOff at.cleaning at.cleaned _
        (scan_if_due-IsOff at.scanned at.scan_restarted at.scan_sent _ off) in
    (cleaned.off, cleaned.alarm)
