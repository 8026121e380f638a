-- ===== src/Metric.antt =====
-- lib/mesh/link_metric.h and link_metric.cpp: the quality of a link from one frame, and its average.
use agnostic_lora_net.Prelude.{if◌then◌else◌}
use agnostic_lora_net.Float.{Float}

module _ {F : Type 0} ⦃fl : Float F⦄ where
  open fl use {add, sub, mul, div, neg, lt, le, dec}

  abbrev pub q_min : F
  q_min = dec 2 2

  abbrev pub q_max : F
  q_max = dec 1 0

  pub clamp : F → F → F → F
  clamp v lo hi = if lt v lo then lo else if lt hi v then hi else v

  unfoldable pub quality_from_rf : F → F → F
  quality_from_rf snr_db rssi_dbm =
      let q =
        clamp (div (sub snr_db (neg (dec 17 0))) (sub (dec 8 0) (neg (dec 17 0)))) (dec 0 0)
          (dec 1 0) in
      let q' = if lt rssi_dbm (neg (dec 130 0)) then mul q (dec 5 1) else q in clamp q' q_min q_max

  -- A negative `prev` is "no estimate yet"; `alpha` is 0.3 at every call.
  unfoldable pub ewma_quality : F → F → F → F
  ewma_quality prev sample alpha =
      if lt prev (dec 0 0)
      then clamp sample q_min q_max
      else clamp (add (mul alpha sample) (mul (sub (dec 1 0) alpha) prev)) q_min q_max
