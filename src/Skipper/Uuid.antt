-- ===== src/Skipper/Uuid.antt =====
-- The ids that uuid.py computes for data points tell data points apart.
use nfcompose.Shared.{String, ◌≡◌}
use nfcompose.Skipper.Structure.{SeriesId, id_text, gen_uuid}
use Prim.Native.String.{count}
use text.Mathlib.TextLemmas.{append_inj, append_cancel_left}

-- Two data series whose ids have texts of the same length, as UUIDs have, give the same id to two
-- data points only if the ids of the series have the same text and the external ids the same digest.
pub gen_uuid_injective :
    (hexdigest : String → String) (series series' : SeriesId) (external_id external_id' : String)
    → count (id_text series) ≡ count (id_text series')
    → gen_uuid hexdigest series external_id ≡ gen_uuid hexdigest series' external_id'
    → (id_text series ≡ id_text series') × (hexdigest external_id ≡ hexdigest external_id')
unfolding gen_uuid
gen_uuid_injective hexdigest series series' external_id external_id' same h =
    let both = append_inj h same in (both.0, append_cancel_left "-" _ _ both.1)
