-- ===== src/Jobs/Preset/Validity.antt =====
-- The independent description of a valid preset, and that `Validate` of
-- services/orchestrator/internal/jobs/preset.go accepts exactly the presets that meet it.
use Prim.Native.String.{len}
use aether_edit.Prelude.{
  ℕ, ◌+◌, ◌%◌, ◌≤◌, String, ◌≡◌, refl, ◌≢◌, ◌↔◌, ◌⊎◌, true, false, List, [], ◌∷◌, arith, eq_iff,
  length, ok,
}
use aether_edit.Prelude.Int.{ℤ, pos, pos_part, ◌≤ℤ◌}
use aether_edit.Prelude.Text.{codes}
use aether_edit.Jobs.Preset.{
  Container, webm, unknown_container, valid_container, RateControlMode, crf, vbr, cbr, unknown_mode,
  valid_rate_control_mode, VideoCodec, av1, unknown_codec, valid_video_codec, SpeedPreset,
  unknown_speed, valid_speed_preset, Rung, Preset, matches_rung_name, seen_name, check_rung,
  check_ladder, check_rate, webm_without_av1, validate,
}

-- No name of the list is this one.
abbrev pub Fresh : String → List String → Type 0
Fresh n [] = Unit
Fresh n (m ∷ ms) = (m ≢ n) × Fresh n ms

pub record IsValidRung (r : Rung) : Type 0 where
  pub name_matches : matches_rung_name (codes r.name) ≡ true
  pub width_range : (pos 16 ≤ℤ r.width) × (r.width ≤ℤ pos 8192)
  pub height_range : (pos 16 ≤ℤ r.height) × (r.height ≤ℤ pos 8192)
  pub even : (pos_part r.width % 2 ≡ 0) × (pos_part r.height % 2 ≡ 0)

-- Every rung is valid, and its name differs from those before it.
abbrev pub IsValidLadder : List String → List Rung → Type 0
IsValidLadder seen [] = Unit
IsValidLadder seen (r ∷ rs) = IsValidRung r × Fresh r.name seen × IsValidLadder (r.name ∷ seen) rs

-- What each rate control mode asks of the three numbers.
abbrev pub IsValidRate : RateControlMode → ℤ → ℤ → ℤ → Type 0
IsValidRate crf q rate top = (pos 0 ≤ℤ q) × (q ≤ℤ pos 51) × (rate ≡ pos 0) × (top ≡ pos 0)
IsValidRate vbr q rate top = (pos 1 ≤ℤ rate) × ((top ≡ pos 0) ⊎ (rate ≤ℤ top)) × (q ≡ pos 0)
IsValidRate cbr q rate top = (pos 1 ≤ℤ rate) × (q ≡ pos 0) × (top ≡ pos 0)
IsValidRate (unknown_mode _) q rate top = ⊥

pub record IsValid (p : Preset) : Type 0 where
  pub name_length : (1 ≤ len p.name) × (len p.name ≤ 128)
  pub container_known : (s : String) → p.container ≢ unknown_container s
  pub codec_known : (s : String) → p.video_codec ≢ unknown_codec s
  pub webm_is_av1 : p.container ≡ webm → p.video_codec ≡ av1
  pub rate : IsValidRate p.rate_control p.crf_value p.bitrate_kbps p.max_bitrate_kbps
  pub gop_range : (pos 1 ≤ℤ p.gop_length) × (p.gop_length ≤ℤ pos 600)
  pub speed_known : (s : String) → p.speed_preset ≢ unknown_speed s
  pub ladder_size : (1 ≤ length p.ladder) × (length p.ladder ≤ 8)
  pub ladder_valid : IsValidLadder [] p.ladder

seen→Fresh : (n : String) (ms : List String) → seen_name n ms ≡ false → Fresh n ms
unfolding seen_name
seen→Fresh n [] h = tt
seen→Fresh n (m ∷ ms) h = ground (arith, eq_iff m n, seen→Fresh n ms)

Fresh→seen : (n : String) (ms : List String) → Fresh n ms → seen_name n ms ≡ false
unfolding seen_name
Fresh→seen n [] h = refl
Fresh→seen n (m ∷ ms) h = ground (arith, eq_iff m n, Fresh→seen n ms h.1)

rung_sound :
    (seen : List String) (i : ℕ) (r : Rung)
    → check_rung seen i r ≡ ok tt
    → IsValidRung r × Fresh r.name seen
unfolding check_rung
rung_sound seen i r h = ground (arith, seen→Fresh r.name seen)

rung_complete :
    (seen : List String) (i : ℕ) (r : Rung)
    → IsValidRung r
    → Fresh r.name seen
    → check_rung seen i r ≡ ok tt
unfolding check_rung
rung_complete seen i r v f = ground (arith, Fresh→seen r.name seen f)

rate_sound :
    (m : RateControlMode) (q rate top : ℤ)
    → valid_rate_control_mode m ≡ true
    → check_rate m q rate top ≡ ok tt
    → IsValidRate m q rate top
unfolding check_rate valid_rate_control_mode
rate_sound crf q rate top v h = ground arith
rate_sound vbr q rate top v h = ground arith
rate_sound cbr q rate top v h = ground arith
rate_sound (unknown_mode s) q rate top v h = cc

rate_complete :
    (m : RateControlMode) (q rate top : ℤ)
    → IsValidRate m q rate top
    → check_rate m q rate top ≡ ok tt
unfolding check_rate
rate_complete crf q rate top v = ground arith
rate_complete vbr q rate top v = ground arith
rate_complete cbr q rate top v = ground arith
rate_complete (unknown_mode s) q rate top v = elim v [ ]

ladder_sound :
    (seen : List String) (i : ℕ) (rs : List Rung)
    → check_ladder seen i rs ≡ ok tt
    → IsValidLadder seen rs
unfolding check_ladder
ladder_sound seen i [] h = tt
ladder_sound seen i (r ∷ rs) h =
    ground (arith, rung_sound seen i r, ladder_sound (r.name ∷ seen) (i + 1) rs)

ladder_complete :
    (seen : List String) (i : ℕ) (rs : List Rung)
    → IsValidLadder seen rs
    → check_ladder seen i rs ≡ ok tt
unfolding check_ladder
ladder_complete seen i [] v = refl
ladder_complete seen i (r ∷ rs) v =
    ground (arith, rung_complete seen i r v.0 v.1, ladder_complete (r.name ∷ seen) (i + 1) rs v.2)

validate_sound : (p : Preset) → validate p ≡ ok tt → IsValid p
unfolding validate valid_container valid_video_codec webm_without_av1 valid_speed_preset
validate_sound p h = ground (
  arith,
  ladder_sound [] 0 p.ladder,
  rate_sound p.rate_control p.crf_value p.bitrate_kbps p.max_bitrate_kbps,
)

container_of_known :
    (c : Container) → ((s : String) → c ≢ unknown_container s) → valid_container c ≡ true
unfolding valid_container
container_of_known (unknown_container s) h = absurd (h s refl)
container_of_known _ h = refl

codec_of_known :
    (c : VideoCodec) → ((s : String) → c ≢ unknown_codec s) → valid_video_codec c ≡ true
unfolding valid_video_codec
codec_of_known (unknown_codec s) h = absurd (h s refl)
codec_of_known _ h = refl

speed_of_known :
    (c : SpeedPreset) → ((s : String) → c ≢ unknown_speed s) → valid_speed_preset c ≡ true
unfolding valid_speed_preset
speed_of_known (unknown_speed s) h = absurd (h s refl)
speed_of_known _ h = refl

mode_of_rate :
    (m : RateControlMode) (q rate top : ℤ)
    → IsValidRate m q rate top
    → valid_rate_control_mode m ≡ true
unfolding valid_rate_control_mode
mode_of_rate (unknown_mode s) q rate top v = elim v [ ]
mode_of_rate _ q rate top v = refl

webm_of_av1 : (c : Container) (v : VideoCodec) → (c ≡ webm → v ≡ av1) → webm_without_av1 c v ≡ false
unfolding webm_without_av1
webm_of_av1 c v h = ground arith

validate_complete : (p : Preset) → IsValid p → validate p ≡ ok tt
unfolding validate
validate_complete p v = ground (
  arith,
  container_of_known p.container v.container_known,
  codec_of_known p.video_codec v.codec_known,
  speed_of_known p.speed_preset v.speed_known,
  webm_of_av1 p.container p.video_codec v.webm_is_av1,
  mode_of_rate p.rate_control p.crf_value p.bitrate_kbps p.max_bitrate_kbps v.rate,
  rate_complete p.rate_control p.crf_value p.bitrate_kbps p.max_bitrate_kbps v.rate,
  ladder_complete [] 0 p.ladder v.ladder_valid,
)

-- `Validate` returns a nil error for exactly the presets that meet the description: a name of 1 to
-- 128 bytes, known container, codec, rate control mode and speed, AV1 in WebM, the numbers that the
-- mode asks for, a GOP length of 1 to 600, and 1 to 8 rungs with distinct names that match the
-- pattern and even dimensions in 16..8192.
pub validate_iff : (p : Preset) → (validate p ≡ ok tt) ↔ IsValid p
validate_iff p = (validate_sound p, validate_complete p)
