-- ===== src/Battle/Tick/Deadline.antt =====
-- Every battle of src/service/battle/sync/room.go ends: `WaveTimeoutTick` bounds it.
use heli.Common.{
  ℤ, pos, pos_part, ◌-ℤ◌, ◌+ℤ◌, ◌≤ℤ◌, ◌<ℤ◌, add64, sub64, Is64, ◌≡◌, ◌≢◌, refl, sym, ◌∙◌, ◌⊎◌, inl,
  inr, arith, go_laws,
}
use heli.Battle.Types.{Room, RoomState}
use heli.Battle.Tick.{
  tick, ensure_started, advance_to_tick, check_finish_conditions, cleanup_finished_waves,
  advance_monsters,
}
use heli.Battle.Spawning.{spawn_wave_monsters}
use heli.Battle.Production.{produce_miner_mana}
use heli.Battle.Tick.Frame.{
  tick_frame, produce_miner_mana_frame, spawn_wave_monsters_frame, advance_monsters_frame,
  cleanup_finished_waves_frame, check_finish_conditions_frame,
}
use heli.Battle.Tick.Loop.{advance_rounds_inv, advance_to_tick_stops}

-- The clocks of a room: a room that is open and started has not reached its timeout.
pub record OnTime (r : Room) : Type 0 where
  pub start_nonneg : pos 0 ≤ℤ r.start_tick
  pub start_past : r.start_tick ≤ℤ r.server_tick
  pub now_int64 : Is64 r.server_tick
  pub timeout_pos : pos 0 <ℤ r.cfg.wave_timeout_tick
  pub in_time :
      (r.state ≡ RoomState.closed)
      ⊎ ((r.state ≡ RoomState.created) ⊎ (r.server_tick <ℤ r.start_tick +ℤ r.cfg.wave_timeout_tick))

-- A room that the check leaves open has not reached its timeout.
check_in_time :
    (r : Room)
    → pos 0 <ℤ r.cfg.wave_timeout_tick
    → let s = check_finish_conditions r in
      (s.state ≡ RoomState.closed) ⊎ (sub64 r.server_tick r.start_tick <ℤ r.cfg.wave_timeout_tick)
unfolding check_finish_conditions
check_in_time r h = ground arith

check_begun :
    (r : Room) → r.state ≢ RoomState.created → (check_finish_conditions r).state ≢ RoomState.created
unfolding check_finish_conditions
check_begun r h e = ground arith

tick-in_time :
    (r : Room)
    → pos 0 <ℤ r.cfg.wave_timeout_tick
    → let s = tick r in
      (s.state ≡ RoomState.closed) ⊎ (sub64 s.server_tick s.start_tick <ℤ s.cfg.wave_timeout_tick)
unfolding tick
tick-in_time r h =
    let started : Room = record r { server_tick = add64 r.server_tick (pos 1) } in
    let r₁ = produce_miner_mana started in
    let r₂ = spawn_wave_monsters r₁ in
    let r₃ = advance_monsters r₂ in
    let r₄ = cleanup_finished_waves r₃ in
    ground (
      arith,
      produce_miner_mana_frame started,
      spawn_wave_monsters_frame r₁,
      advance_monsters_frame r₂,
      cleanup_finished_waves_frame r₃,
      check_finish_conditions_frame r₄,
      check_in_time r₄,
    )

-- What the rounds that began at the room `r` keep.
record Since (r s : Room) : Type 0 where
  on_time : OnTime s
  same_cfg : s.cfg ≡ r.cfg
  start_bound : s.start_tick ≤ℤ r.server_tick
  unmoved : s.state ≡ RoomState.created → s.server_tick ≡ r.server_tick

ensure_started_clock :
    (s : Room)
    → pos 0 ≤ℤ s.start_tick
    → s.start_tick ≤ℤ s.server_tick
    → let u = ensure_started s in
      (u.state ≢ RoomState.created)
      × (u.cfg ≡ s.cfg)
      × (u.server_tick ≡ s.server_tick)
      × (pos 0 ≤ℤ u.start_tick)
      × (u.start_tick ≤ℤ u.server_tick)
      × ((u.start_tick ≡ s.start_tick)
          ⊎ ((s.state ≡ RoomState.created) × (u.start_tick ≡ s.server_tick)))
unfolding ensure_started
ensure_started_clock s h k = ground arith

tick-ne-created : (u : Room) → u.state ≢ RoomState.created → (tick u).state ≢ RoomState.created
unfolding tick
tick-ne-created u h =
    let started : Room = record u { server_tick = add64 u.server_tick (pos 1) } in
    let r₁ = produce_miner_mana started in
    let r₂ = spawn_wave_monsters r₁ in
    let r₃ = advance_monsters r₂ in
    let r₄ = cleanup_finished_waves r₃ in
    ground (
      arith,
      produce_miner_mana_frame started,
      spawn_wave_monsters_frame r₁,
      advance_monsters_frame r₂,
      cleanup_finished_waves_frame r₃,
      check_begun r₄,
    )

round-Since :
    (r : Room) (target : ℤ)
    → Is64 target
    → (s : Room) → Since r s
    → s.server_tick <ℤ target
    → s.state ≢ RoomState.closed
    → Since r (tick (ensure_started s))
round-Since r target t64 s h before going =
    let clock = h.on_time in
    let u = ensure_started s in
    let v = tick u in
    let (begun, cfg_eq, now_eq, nonneg, past, start_eq) =
      ensure_started_clock s clock.start_nonneg clock.start_past in
    let frame = tick_frame u in
    let now : v.server_tick ≡ add64 s.server_tick (pos 1) = ground (arith, frame, now_eq) in
    let start : v.start_tick ≡ u.start_tick = ground (arith, frame) in
    let cfg : v.cfg ≡ s.cfg = ground (arith, frame, cfg_eq) in
    let bound : u.start_tick ≤ℤ r.server_tick = elim start_eq [
      | inl e ↦ rw e h.start_bound
      | inr (c, e) ↦ rw (e, h.unmoved c) (omega arith)
    ] in
    let timeout : pos 0 <ℤ u.cfg.wave_timeout_tick = rw cfg_eq clock.timeout_pos in
    let past_s : u.start_tick ≤ℤ s.server_tick = rw now_eq at past in
    let now64 : Is64 v.server_tick = rw now (omega go_laws) in
    let start0 : pos 0 ≤ℤ v.start_tick = rw start nonneg in
    let past_v : v.start_tick ≤ℤ v.server_tick = rw (start, now) (omega go_laws) in
    record {
      on_time = record {
        start_nonneg = start0;
        start_past = past_v;
        now_int64 = now64;
        timeout_pos = rw cfg clock.timeout_pos;
        in_time = elim (tick-in_time u timeout) [
          | inl c ↦ inl c
          | inr t ↦ inr (inr (omega go_laws))
        ];
      };
      same_cfg = cfg ∙ h.same_cfg;
      start_bound = rw start bound;
      unmoved = λ e. absurd (tick-ne-created u begun e);
    }

advance_to_tick-Since :
    (target : ℤ) (r : Room) → OnTime r → Is64 target → Since r (advance_to_tick target r)
unfolding advance_to_tick
advance_to_tick-Since target r clock t64 =
    advance_rounds_inv (Since r) target (round-Since r target t64)
      (pos_part (target -ℤ r.server_tick)) r
      (record {
        on_time = clock;
        same_cfg = refl;
        start_bound = clock.start_past;
        unmoved = λ e. refl;
      })

-- Every battle ends. A room that is on time, started or not, is closed once it is asked to advance
-- to a tick at least its timeout away; the tick must be an int64.
pub advance_to_tick_ends :
    (target : ℤ) (r : Room)
    → OnTime r
    → Is64 target
    → r.server_tick +ℤ r.cfg.wave_timeout_tick ≤ℤ target
    → (advance_to_tick target r).state ≡ RoomState.closed
advance_to_tick_ends target r clock t64 far =
    let s = advance_to_tick target r in
    let since = advance_to_tick-Since target r clock t64 in
    let cfg = since.same_cfg in
    let now64 = clock.now_int64 in
    let timeout = clock.timeout_pos in
    let bound = since.start_bound in
    elim ((advance_to_tick_stops target r t64 clock.now_int64 (omega go_laws)).0) [
      | inr (closed, _) ↦ closed
      | inl there ↦ elim since.on_time.in_time [
        | inl closed ↦ closed
        | inr (inl fresh) ↦
            let same : target ≡ r.server_tick = sym there ∙ since.unmoved fresh in
            let far' : r.server_tick +ℤ r.cfg.wave_timeout_tick ≤ℤ r.server_tick = rw same at far in
            absurd (omega go_laws)
        | inr (inr early) ↦
            let early' : s.server_tick <ℤ s.start_tick +ℤ r.cfg.wave_timeout_tick =
              rw cfg at early in
            let early'' : target <ℤ s.start_tick +ℤ r.cfg.wave_timeout_tick = rw there at early' in
            absurd (omega go_laws)
      ]
    ]
