-- ===== src/Announce/Connect.antt =====
-- `check_connectivity` of src/announce.rs: whether the client's port answers, remembered for a
-- while.
use unit3d_announce.Prelude.{
  ℕ, suc, ◌-◌, ◌/◌, ◌≡◌, ◌↔◌, Bool, true, false, Option, none, some, leb, ltb, arith, if◌then◌else◌,
}
use unit3d_announce.Prelude.Int.{ℤ, pos, negsuc}
use unit3d_announce.Prelude.Eq.{Eq, nat_eq, list_beq, list_beq_iff}
use unit3d_announce.Prelude.Map.{Map, lookup, insert}
use unit3d_announce.Prelude.Word.{i64_max}
use unit3d_announce.Model.{IpAddr, v4, v6}
use unit3d_announce.Config.{Config}
use unit3d_announce.Store.{ConnectablePort}
use unit3d_announce.Queue.Updates.{pair_eq}
use unit3d_announce.Announce.Swarm.{Result, ok, panic, nanos, checked_add}

-- `IpAddr::eq`
unfoldable pub ip_beq : IpAddr → IpAddr → Bool
ip_beq (v4 a) (v4 b) = list_beq a b
ip_beq (v6 a) (v6 b) = list_beq a b
ip_beq _ _ = false

pub ip_beq_iff : (a b : IpAddr) → (ip_beq a b ≡ true) ↔ (a ≡ b)
unfolding ip_beq
ip_beq_iff (v4 a) (v4 b) = ground (arith, list_beq_iff a b)
ip_beq_iff (v6 a) (v6 b) = ground (arith, list_beq_iff a b)
ip_beq_iff (v4 a) (v6 b) = ground arith
ip_beq_iff (v6 a) (v4 b) = ground arith

instance abbrev pub ip_eq : Eq IpAddr
ip_eq = record { beq = ip_beq; beq_iff = ip_beq_iff }

abbrev pub Ports : Type 0
Ports = Map (IpAddr × ℕ) ConnectablePort

-- `updated_at.checked_add_signed(Duration::seconds(interval))`, whose `Duration::seconds` panics
-- where the milliseconds do not fit in 64 bits.
unfoldable pub cached_until : ℕ → ℕ → ℤ → Result (Option ℕ)
unfolding checked_add
cached_until max_utc updated_at (pos n) =
    if leb n (i64_max / 1000) then ok (checked_add max_utc updated_at (nanos n)) else panic
cached_until max_utc updated_at (negsuc n) =
    if leb (suc n) (i64_max / 1000)
    then ok (if leb (nanos (suc n)) updated_at then some (updated_at - nanos (suc n)) else none)
    else panic

-- The answer that is still held, if there is one.
unfoldable pub cached :
    {F : Type 0} → Config F → ℕ → ℕ → Option ConnectablePort → Result (Option Bool)
unfolding cached_until
cached config max_utc now none = ok none
cached config max_utc now (some port) =
    elim (cached_until max_utc port.updated_at config.connectivity_check_interval) [
      | ok none ↦ ok none
      | ok (some until) ↦ ok (if ltb now until then some port.connectable else none)
      | Result.err e ↦ Result.err e
      | panic ↦ panic
    ]

-- The whole function: `can_connect` is the outcome of the attempt, which is made only where nothing
-- is held.
unfoldable pub check_connectivity :
    {F : Type 0} → Config F → ℕ → ℕ → Bool → IpAddr → ℕ → Ports → Result (Bool × Ports)
unfolding cached
check_connectivity config max_utc now can_connect ip port ports =
    if config.is_connectivity_check_enabled
    then elim (cached config max_utc now (lookup (ip, port) ports)) [
      | ok (some connectable) ↦ ok (connectable, ports)
      | ok none ↦ ok (
        can_connect,
        insert (ip, port) (record { connectable = can_connect; updated_at = now }) ports,
      )
      | Result.err e ↦ Result.err e
      | panic ↦ panic
    ]
    else ok (false, ports)
