-- ===== src/MainLoop/Timing.antt =====
-- When the parts of the loop of `main` in main.cpp act.
use ble_smoke_detector.Common.{
  ℕ, ◌+◌, ◌-◌, ◌^◌, ◌≤◌, ◌<◌, ◌≡◌, refl, ap, ◌∙◌, arith, Bool, true, false, ◌&&◌, not, List, [],
  ◌∷◌, ltb, ◌==◌, if◌then◌else◌, if_true, Option, none, some, lt→ltb,
}
use native.Mathlib.Nat.{mod-eq_of_lt}
use ble_smoke_detector.Common.Map.{string_key}
use ble_smoke_detector.BleConnectionTracker.Cleanup.{cleanup_stale_items}
use ble_smoke_detector.BleConnectionTracker.Sending.{send_packets}
use ble_smoke_detector.MainLoop.{Program, active}
use ble_smoke_detector.MainLoop.Events.{
  connect_fresh, connect_known, connect_first, connect_to_first_neighbour,
}
use ble_smoke_detector.BleConnection.{BleConnection}
use ble_smoke_detector.MainLoop.Turn.{
  Loop, World, Readings, since, one_second_in_us, ten_minutes_in_us, connect_if_due, send_if_due,
  clean_up_if_due, connect_due, attempted,
}

-- A reading that lies behind another one by less than 2 ^ 63 us seems to be ages ago.
since-wraps :
    (limit now before : ℕ)
    → now < before
    → before ≤ now + 2 ^ 63
    → limit < 2 ^ 63
    → ltb limit (since now before) ≡ true
since-wraps limit now before behind close small =
    let e : since now before ≡ now + 2 ^ 64 - before =
      mod-eq_of_lt {n = now + 2 ^ 64 - before} {m = 2 ^ 64} (omega arith) in
    lt→ltb limit (since now before) (omega arith)

-- A time of the last clean-up that lies ahead, as `main` sets it at the start, does not put the first
-- clean-up off: the unsigned difference wraps, and clean-up runs at once.
pub clean_up_if_due-ahead :
    (now after : ℕ) (l : Loop)
    → l.loop_start < l.last_cleanup
    → l.last_cleanup ≤ l.loop_start + 2 ^ 63
    → ((clean_up_if_due now after l).program.connection_tracker
        ≡ cleanup_stale_items now l.program.connection_tracker)
      × ((clean_up_if_due now after l).last_cleanup ≡ after)
unfolding clean_up_if_due
clean_up_if_due-ahead now after l ahead close =
    let due = since-wraps ten_minutes_in_us l.loop_start l.last_cleanup ahead close (omega arith) in
    rw due (refl, refl)

started_or_same :
    (b : Bool) (p p' : Program)
    → (if◌then◌else◌ {A = Bool × Program} b (true, p') (false, p)).0 ≡ false
    → (if◌then◌else◌ {A = Bool × Program} b (true, p') (false, p)).1 ≡ p
started_or_same true p p' failed = absurd cc
started_or_same false p p' failed = refl

connect_fresh-failed :
    (gap_connect : List ℕ → ℕ → ℕ) (neighbour : BleConnection) (p : Program) (there : Option ℕ)
    → (connect_fresh gap_connect neighbour p there).0 ≡ false
    → (connect_fresh gap_connect neighbour p there).1 ≡ p
unfolding connect_fresh
connect_fresh-failed gap_connect neighbour p (some handle) failed = refl
connect_fresh-failed gap_connect neighbour p none failed =
    started_or_same (gap_connect neighbour.bt_address neighbour.bt_address_type == 0) p _ failed

connect_known-failed :
    (gap_connect : List ℕ → ℕ → ℕ) (p : Program) (known : Option BleConnection)
    → (connect_known gap_connect p known).0 ≡ false
    → (connect_known gap_connect p known).1 ≡ p
unfolding connect_known
connect_known-failed gap_connect p none failed = refl
connect_known-failed gap_connect p (some neighbour) failed =
    connect_fresh-failed gap_connect neighbour p _ failed

connect_first-failed :
    (gap_connect : List ℕ → ℕ → ℕ) (p : Program) (keys : List (List ℕ))
    → (connect_first gap_connect p keys).0 ≡ false
    → (connect_first gap_connect p keys).1 ≡ p
unfolding connect_first
connect_first-failed gap_connect p [] failed = refl
connect_first-failed gap_connect p (key ∷ rest) failed = connect_known-failed gap_connect p _ failed

-- Where no connection was started, the program is as it was.
connect_to_first_neighbour-failed :
    (gap_connect : List ℕ → ℕ → ℕ) (p : Program)
    → (connect_to_first_neighbour gap_connect p).0 ≡ false
    → (connect_to_first_neighbour gap_connect p).1 ≡ p
unfolding connect_to_first_neighbour
connect_to_first_neighbour-failed gap_connect p failed = connect_first-failed gap_connect p _ failed

due_parts : (a b c : Bool) → (not a && (not b && c)) ≡ true → (a ≡ false) × (b ≡ false)
due_parts true b c h = absurd cc
due_parts false true c h = absurd cc
due_parts false false c h = (refl, refl)

all_clear : (a b c : Bool) → a ≡ false → b ≡ false → c ≡ true → (not a && (not b && c)) ≡ true
all_clear true b c h k w = absurd cc
all_clear false true c h k w = absurd cc
all_clear false false c h k w = w

active-tracker :
    (b : Bool) (p : Program) → (if b then active p else p).connection_tracker ≡ p.connection_tracker
active-tracker true p = refl
active-tracker false p = refl

-- Behind an attempt to connect that was due and started nothing, the same turn sends at once where the
-- clock moved on between the two readings that are to keep it from sending: their unsigned difference wraps.
pub send_if_due-connect_if_due :
    (after : ℕ) (at : Readings) (w : World) (l : Loop)
    → connect_due l ≡ true
    → (connect_to_first_neighbour w.gap_connect l.program).0 ≡ false
    → at.restarted_at < at.sent_at
    → at.sent_at ≤ at.restarted_at + 2 ^ 63
    → (send_if_due after w (connect_if_due at w l)).program.connection_tracker
      ≡ (send_packets w.stack w.address l.program.connection_tracker).1
unfolding connect_if_due send_if_due
send_if_due-connect_if_due after at w l due failed moved close =
    let same = connect_to_first_neighbour-failed w.gap_connect l.program failed in
    let (connecting, p') = connect_to_first_neighbour w.gap_connect l.program in
    let tried : connect_if_due at w l ≡ attempted at l false l.program =
      if_true (connect_due l) (attempted at l connecting p') l due
      ∙ ap (λ c. attempted at l c p') failed
      ∙ ap (attempted at l false) same in
    let (idle, free) = due_parts l.program.scanning l.program.connection_in_progress _ due in
    let wraps = since-wraps one_second_in_us at.restarted_at at.sent_at moved close (omega arith) in
    ap (λ k. (send_if_due after w k).program.connection_tracker) tried
    ∙ ap (λ k. k.program.connection_tracker)
        (if_true _ _ (attempted at l false l.program)
          (all_clear l.program.scanning l.program.connection_in_progress _ idle free wraps))
    ∙ active-tracker (send_packets w.stack w.address l.program.connection_tracker).0 _
