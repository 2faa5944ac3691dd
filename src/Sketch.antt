-- ===== src/Sketch.antt =====
-- The preferences of the sketch for the ESP32, ble-smoke-detector.ino: kept under names by the board's
-- library, which gives back the string or the number that was put. A string goes in and comes out as a
-- C string, which ends before its first 0.
use ble_smoke_detector.Common.{
  ℕ, ◌≡◌, ◌≢◌, refl, ap, ◌∙◌, ◌==◌, ==_iff, List, [], ◌∷◌, if◌then◌else◌, All, Bool-cases, inl, inr,
}
use ble_smoke_detector.MicroMeshPreferences.{MicroMeshPreferences}

-- What a `const char *` that points to these bytes stands for.
unfoldable pub c_str : List ℕ → List ℕ
c_str [] = []
c_str (b ∷ bytes) = let rest = c_str bytes in if b == 0 then [] else b ∷ rest

-- What the library keeps under "micro-mesh".
pub record MicroMeshNamespace : Type 0 where
  pub key : List ℕ
  pub ssid : List ℕ
  pub password : List ℕ
  pub latitude_i : ℕ
  pub longitude_i : ℕ
  pub altitude : ℕ

-- `savePreferencesToFlash` of the sketch.
unfoldable pub put_preferences : MicroMeshPreferences → MicroMeshNamespace
unfolding c_str
put_preferences prefs = record {
  key = c_str prefs.key;
  ssid = c_str prefs.ssid;
  password = c_str prefs.password;
  latitude_i = prefs.latitude_i;
  longitude_i = prefs.longitude_i;
  altitude = prefs.altitude;
}

-- The part of `setup` that sets the preferences from what was kept.
unfoldable pub get_preferences : MicroMeshNamespace → MicroMeshPreferences → MicroMeshPreferences
unfolding c_str
get_preferences kept prefs = record prefs {
  key = c_str kept.key;
  ssid = c_str kept.ssid;
  password = c_str kept.password;
  latitude_i = kept.latitude_i;
  longitude_i = kept.longitude_i;
  altitude = kept.altitude;
}

c_str_whole : (bytes : List ℕ) → All (λ b. b ≢ 0) bytes → c_str bytes ≡ bytes
unfolding c_str
c_str_whole [] all = refl
c_str_whole (b ∷ bytes) (here, all) = elim (Bool-cases (b == 0)) [
  | inl zero ↦ absurd (here ((==_iff b 0).0 zero))
  | inr more ↦ rw more (ap (λ t. b ∷ t) (c_str_whole bytes all))
]

c_str_again : (bytes : List ℕ) → All (λ b. b ≢ 0) bytes → c_str (c_str bytes) ≡ bytes
c_str_again bytes all = ap c_str (c_str_whole bytes all) ∙ c_str_whole bytes all

-- The settings of preferences whose strings hold no 0 are the same after a restart of the sketch; what
-- else the preferences hold is as it was before they were read.
pub get_preferences-put_preferences :
    (prefs prefs' : MicroMeshPreferences)
    → All (λ b. b ≢ 0) prefs.key
    → All (λ b. b ≢ 0) prefs.ssid
    → All (λ b. b ≢ 0) prefs.password
    → get_preferences (put_preferences prefs) prefs' ≡ record prefs' {
      key = prefs.key;
      ssid = prefs.ssid;
      password = prefs.password;
      latitude_i = prefs.latitude_i;
      longitude_i = prefs.longitude_i;
      altitude = prefs.altitude;
    }
unfolding get_preferences put_preferences
get_preferences-put_preferences prefs prefs' key ssid password =
    let with_strings = λ (k s w : List ℕ). record prefs' {
      key = k;
      ssid = s;
      password = w;
      latitude_i = prefs.latitude_i;
      longitude_i = prefs.longitude_i;
      altitude = prefs.altitude;
    } in
    ap (λ k. with_strings k (c_str (c_str prefs.ssid)) (c_str (c_str prefs.password)))
      (c_str_again prefs.key key)
    ∙ ap (λ s. with_strings prefs.key s (c_str (c_str prefs.password)))
        (c_str_again prefs.ssid ssid)
    ∙ ap (λ w. with_strings prefs.key prefs.ssid w) (c_str_again prefs.password password)
