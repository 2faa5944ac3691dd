-- ===== src/BleConnectionTracker/Cleanup/Dangling.antt =====
-- `cleanupStaleItems` of src/BLEPacket/BleConnectionTracker.cpp erases from the maps and from the lists
-- that point into them.
use ble_smoke_detector.Common.{
  ℕ, ◌≡◌, refl, sym, ap, ◌∙◌, Bool, true, false, ◌||◌, not, some, [], ◌∷◌, keep_if, All-keep_if,
  Bool-cases, inl, inr, arith,
}
use ble_smoke_detector.Common.Map.{Map, Key, number_key, string_key, lookup}
use ble_smoke_detector.BleConnectionTracker.{
  BleConnectionTracker, PacketRef, message_at, announce_at, own_announce,
}
use ble_smoke_detector.BleConnectionTracker.Linked.{Points, Connected, PointsBoth, IsLinked}
use ble_smoke_detector.BleConnectionTracker.Clock.{get_time_ms}
use ble_smoke_detector.BleConnectionTracker.Packets.{base_of}
use ble_smoke_detector.BleConnectionTracker.Cleanup.{
  cleanup_stale_items, packet_stale, handle_stale, packet_connection_stale, connection_stale,
  base_stale,
}

-- An entry whose value is kept is still found.
lookup-keep_if :
    {K V : Type 0} ⦃key : Key K⦄ (p : V → Bool) (k : K) (v : V) (m : Map K V)
    → lookup k m ≡ some v
    → p v ≡ true
    → lookup k (keep_if (λ e. p e.1) m) ≡ some v
unfolding lookup keep_if
lookup-keep_if p k v [] found kept = found
lookup-keep_if ⦃key⦄ p k v ((j, w) ∷ m) found kept = elim (Bool-cases (key.same j k)) [
  | inl hit ↦
      let e : some w ≡ some v = rw hit at found in
      let same : w ≡ v = cc in let ok : p w ≡ true = rw same kept in rw ok (rw hit e)
  | inr miss ↦
      let rest = lookup-keep_if p k v m (rw miss at found) kept in
      elim (Bool-cases (p w)) [ inl e ↦ rw e (rw miss rest) | inr e ↦ rw e rest ]
]

keep_refuted : (b : Bool) → not b ≡ true → b ≡ false
keep_refuted true h = cc
keep_refuted false h = refl

keep_both : (a b : Bool) → not (a || b) ≡ true → (not a ≡ true) × (not b ≡ true)
keep_both true b h = absurd (grind arith)
keep_both false true h = absurd (grind arith)
keep_both false false h = (refl, refl)

-- A packet that is not stale is still there.
Points-cleanup :
    (time_us : ℕ) (t : BleConnectionTracker) (packet : PacketRef)
    → not (packet_stale (get_time_ms time_us t) t packet) ≡ true
    → Points t packet
    → Points (cleanup_stale_items time_us t) packet
unfolding cleanup_stale_items packet_stale base_of
Points-cleanup time_us t (message_at id) keep (m, e) =
    let now = get_time_ms time_us t in
    let stale : packet_stale now t (message_at id) ≡ base_stale now m.base =
      rw (e, packet_stale) refl in
    (
      m,
      lookup-keep_if (λ m. not (base_stale now m.base)) id m t.messages e
          (sym (ap not stale) ∙ keep),
    )
Points-cleanup time_us t (announce_at id) keep (a, e) =
    let now = get_time_ms time_us t in
    let stale : packet_stale now t (announce_at id) ≡ base_stale now a.base =
      rw (e, packet_stale) refl in
    (
      a,
      lookup-keep_if (λ a. not (base_stale now a.base)) id a t.announces e
          (sym (ap not stale) ∙ keep),
    )
Points-cleanup time_us t own_announce keep h = tt

Connected-cleanup :
    (time_us : ℕ) (t : BleConnectionTracker) (handle : ℕ)
    → not (handle_stale (get_time_ms time_us t) t handle) ≡ true
    → Connected t handle
    → Connected (cleanup_stale_items time_us t) handle
unfolding cleanup_stale_items handle_stale
Connected-cleanup time_us t handle keep (c, e) =
    let now = get_time_ms time_us t in
    let stale : handle_stale now t handle ≡ connection_stale now c = rw (e, handle_stale) refl in
    (
      c,
      lookup-keep_if (λ c. not (connection_stale now c)) handle c t.connections e
          (sym (ap not stale) ∙ keep),
    )

PointsBoth-cleanup :
    (time_us : ℕ) (t : BleConnectionTracker) (e : PacketRef × ℕ)
    → not (packet_connection_stale (get_time_ms time_us t) t e) ≡ true
    → PointsBoth t e
    → PointsBoth (cleanup_stale_items time_us t) e
unfolding packet_connection_stale
PointsBoth-cleanup time_us t (packet, handle) keep (p, c) =
    let now = get_time_ms time_us t in
    let (kp, kc) = keep_both (packet_stale now t packet) (handle_stale now t handle) keep in
    (Points-cleanup time_us t packet kp p, Connected-cleanup time_us t handle kc c)

-- Clean-up of a state without dangling pointers, at any time, leaves a state without dangling
-- pointers.
pub cleanup_stale_items-IsLinked :
    (time_us : ℕ) (t : BleConnectionTracker) → IsLinked t → IsLinked (cleanup_stale_items time_us t)
unfolding cleanup_stale_items
cleanup_stale_items-IsLinked time_us t linked =
    let now = get_time_ms time_us t in
    let t' = cleanup_stale_items time_us t in
    record {
      sent =
          All-keep_if (PointsBoth t) (PointsBoth t') (λ e. not (packet_connection_stale now t e))
            t.packets_connections_sent_list (PointsBoth-cleanup time_us t) linked.sent;
      peers_sent =
          All-keep_if (λ e. Points t e.0) (λ e. Points t' e.0) (λ e. not (packet_stale now t e.0))
            t.packets_peers_sent_list (λ e. Points-cleanup time_us t e.0) linked.peers_sent;
      broadcast =
          All-keep_if (Points t) (Points t') (λ e. not (packet_stale now t e))
            t.broadcast_packets_to_send_list (Points-cleanup time_us t) linked.broadcast;
      targeted =
          All-keep_if (PointsBoth t) (PointsBoth t') (λ e. not (packet_connection_stale now t e))
            t.targeted_packets_to_send_list (PointsBoth-cleanup time_us t) linked.targeted;
    }
