-- ===== src/Packet/Flood.antt =====
-- src/main.cpp: the ring of floods that were handled.
pub mod Kept
use agnostic_lora_net.Prelude.{
  ℕ, suc, zero, ◌+◌, ◌%◌, ◌≡◌, Bool, true, false, ◌&&◌, List, ◌==◌, any, bytes_eq, set, replicate,
}
use agnostic_lora_net.NodeId.{NodeId, zero_id}

pub record LocSeen : Type 0 where
  pub src : NodeId
  pub pid : ℕ
  pub used : Bool

-- The ring, and the place that is written next.
pub record Floods : Type 0 where
  pub loc_seen : List LocSeen
  pub loc_seen_i : ℕ

abbrev pub loc_seen_size : ℕ
loc_seen_size = 16

abbrev pub no_floods : Floods
no_floods = record {
  loc_seen = replicate loc_seen_size (record { src = zero_id; pid = 0; used = false });
  loc_seen_i = 0;
}

abbrev pub is_flood : NodeId → ℕ → LocSeen → Bool
is_flood src pid s = s.used && (bytes_eq s.src src && (s.pid == pid))

unfoldable pub flood_seen : Floods → NodeId → ℕ → Bool
flood_seen f src pid = any (is_flood src pid) f.loc_seen

unfoldable pub flood_mark : Floods → NodeId → ℕ → Floods
flood_mark f src pid = record {
  loc_seen = set f.loc_seen f.loc_seen_i (record { src = src; pid = pid; used = true });
  loc_seen_i = (f.loc_seen_i + 1) % loc_seen_size;
}
