-- ===== src/BleConnectionTracker/Linked.antt =====
-- The lists of src/BLEPacket/BleConnectionTracker.cpp hold raw pointers into its maps. A state in which
-- each of them points to something is linked; what makes a state grow keeps it linked.
pub mod Stores
pub mod Links
use ble_smoke_detector.Common.{
  ℕ, ◌≡◌, refl, Bool, true, false, Option, none, some, List, [], ◌∷◌, ◌++◌, All, All-append,
  Option-cases, Bool-cases, inl, inr, ◌∙◌,
}
use ble_smoke_detector.Common.Map.{
  Map, Key, number_key, string_key, lookup, insert, erase, at_or_new, update, lookup-insert_self,
  lookup-insert_ne,
}
use ble_smoke_detector.Message.{Message}
use ble_smoke_detector.Announce.{Announce}
use ble_smoke_detector.BleConnection.{BleConnection}
use ble_smoke_detector.BleConnectionTracker.{
  BleConnectionTracker, PacketRef, message_at, announce_at, own_announce,
}

-- The packet that a pointer points to is there.
abbrev pub Points : BleConnectionTracker → PacketRef → Type 0
Points t (message_at id) = (m : Message) × (lookup id t.messages ≡ some m)
Points t (announce_at id) = (a : Announce) × (lookup id t.announces ≡ some a)
Points t own_announce = Unit {0}

abbrev pub Connected : BleConnectionTracker → ℕ → Type 0
Connected t handle = (c : BleConnection) × (lookup handle t.connections ≡ some c)

abbrev pub PointsBoth : BleConnectionTracker → PacketRef × ℕ → Type 0
PointsBoth t e = Points t e.0 × Connected t e.1

-- No list holds a dangling pointer.
pub record IsLinked (t : BleConnectionTracker) : Type 0 where
  pub sent : All (PointsBoth t) t.packets_connections_sent_list
  pub peers_sent : All (λ e. Points t e.0) t.packets_peers_sent_list
  pub broadcast : All (Points t) t.broadcast_packets_to_send_list
  pub targeted : All (PointsBoth t) t.targeted_packets_to_send_list

-- What was there is there after an operation, and no pointer dangles after it.
pub record Keeps (t t' : BleConnectionTracker) : Type 0 where
  pub points : (packet : PacketRef) → Points t packet → Points t' packet
  pub connected : (handle : ℕ) → Connected t handle → Connected t' handle
  pub linked : IsLinked t → IsLinked t'

pub Keeps-same : (t : BleConnectionTracker) → Keeps t t
Keeps-same t = record { points = λ p h. h; connected = λ k h. h; linked = λ h. h }

pub Keeps-trans : (t t' t'' : BleConnectionTracker) → Keeps t t' → Keeps t' t'' → Keeps t t''
Keeps-trans t t' t'' j k = record {
  points = λ p h. k.points p (j.points p h);
  connected = λ c h. k.connected c (j.connected c h);
  linked = λ h. k.linked (j.linked h);
}

pub All-map :
    {A : Type 0} (P Q : A → Type 0) (xs : List A) → ((x : A) → P x → Q x) → All P xs → All Q xs
All-map P Q [] f h = tt
All-map P Q (x ∷ xs) f h = (f x h.0, All-map P Q xs f h.1)

-- A state that grows keeps its lists linked, with what was appended to them.
pub Keeps-grow :
    (t t' : BleConnectionTracker)
    → ((packet : PacketRef) → Points t packet → Points t' packet)
    → ((handle : ℕ) → Connected t handle → Connected t' handle)
    → (All (PointsBoth t') t.packets_connections_sent_list
        → All (PointsBoth t') t'.packets_connections_sent_list)
    → (All (λ e. Points t' e.0) t.packets_peers_sent_list
        → All (λ e. Points t' e.0) t'.packets_peers_sent_list)
    → (All (Points t') t.broadcast_packets_to_send_list
        → All (Points t') t'.broadcast_packets_to_send_list)
    → (All (PointsBoth t') t.targeted_packets_to_send_list
        → All (PointsBoth t') t'.targeted_packets_to_send_list)
    → Keeps t t'
Keeps-grow t t' points connected sent peers_sent broadcast targeted =
    let both : (e : PacketRef × ℕ) → PointsBoth t e → PointsBoth t' e =
      λ e h. (points e.0 h.0, connected e.1 h.1) in
    record {
      points = points;
      connected = connected;
      linked = λ h. record {
        sent =
            sent
              (All-map (PointsBoth t) (PointsBoth t') t.packets_connections_sent_list both h.sent);
        peers_sent = peers_sent (
            All-map (λ e. Points t e.0) (λ e. Points t' e.0) t.packets_peers_sent_list
              (λ e. points e.0) h.peers_sent);
        broadcast =
            broadcast
              (All-map (Points t) (Points t') t.broadcast_packets_to_send_list points h.broadcast);
        targeted = targeted (
            All-map (PointsBoth t) (PointsBoth t') t.targeted_packets_to_send_list both h.targeted);
      };
    }

-- An entry is there after an insertion, under any key.
pub lookup-insert-some :
    {K V : Type 0} ⦃key : Key K⦄ (j k : K) (w : V) (m : Map K V)
    → (v : V) × (lookup j m ≡ some v)
    → (v : V) × (lookup j (insert k w m) ≡ some v)
lookup-insert-some ⦃key⦄ j k w m (v, e) = elim (Bool-cases (key.same k j)) [
  | inl hit ↦ let same : k ≡ j = key.same_sound k j hit in (w, rw same (lookup-insert_self j w m))
  | inr miss ↦ (v, lookup-insert_ne j k w m miss ∙ e)
]

pub lookup-at_or_new-some :
    {K V : Type 0} ⦃key : Key K⦄ (j k : K) (fresh : V) (m : Map K V)
    → (v : V) × (lookup j m ≡ some v)
    → (v : V) × (lookup j (at_or_new k fresh m).1 ≡ some v)
unfolding at_or_new
lookup-at_or_new-some j k fresh m h = elim (Option-cases (lookup k m)) [
  | inl e ↦ rw (e, at_or_new) (lookup-insert-some j k fresh m h)
  | inr (v, e) ↦ rw (e, at_or_new) h
]

pub lookup-update-some :
    {K V : Type 0} ⦃key : Key K⦄ (j k : K) (fresh : V) (f : V → V) (m : Map K V)
    → (v : V) × (lookup j m ≡ some v)
    → (v : V) × (lookup j (update k fresh f m) ≡ some v)
unfolding update
lookup-update-some j k fresh f m h =
    lookup-insert-some j k (f (at_or_new k fresh m).0) (at_or_new k fresh m).1
      (lookup-at_or_new-some j k fresh m h)
