-- ===== src/Replicating.antt =====
-- `run_replicat` of cdc/engine.py: the chunks of the trail are applied segment by segment, rejected
-- records go to the dead letters, and the cursor in the registry follows.

pub mod Chunks
pub mod Cursor
pub mod Ends
pub mod Letters
pub mod Once
pub mod Parked
pub mod Pieces
pub mod Reads
use any2helios_db.Prelude.{
  ℕ, zero, suc, ◌+◌, ◌*◌, ◌-◌, String, Bool, true, false, not, ◌&&◌, ◌||◌, Option, none, some, List,
  [], ◌∷◌, ◌++◌, ltb, leb, ◌==◌, if◌then◌else◌, length,
}
use any2helios_db.Record.{Value, ChangeRecord}
use any2helios_db.Record.Codec.{Text, Codec}
use any2helios_db.Registry.{Registry, ExtractInfo, set_apply_cursor}
use any2helios_db.Registry
use any2helios_db.DeadLetter.{
  Journal, is_seen, keep_pos, pos_key, append_letter, seen_source_positions, count,
}
use any2helios_db.Trail.{Trail, is_empty}
use any2helios_db.Trail.Purge.{reconcile_purged}
use any2helios_db.Apply.{ApplySegment, atomic, barrier, segment_for_apply, read_txn_aligned}
use any2helios_db.Replicat.{
  Action, done_with, raise, go_on, Driver, Config, Warning, Outcome, is_keymove,
}
use any2helios_db.Replicat.Barrier.{OnPoison, OnFlush, apply_barriered}
use any2helios_db.Replicat.Txn.{apply_txn}

-- What a run changes: the target, the dead-letter file, the positions that it knows, the number of
-- records that it parked, and the registry.
pub record World (T : Type 0) : Type 0 where
  pub target : T
  pub letters : Text
  pub dead_seen : List Text
  pub poisoned : ℕ
  pub registry : Registry

-- The options of the run; `max_poison` is `poison_max_per_run`.
pub record Options : Type 0 where
  pub apply_batch : ℕ
  pub poison_retries : ℕ
  pub max_poison : ℕ
  pub txn_enabled : Bool

abbrev pub on_target : {T A : Type 0} → Action T A → Action (World T) A
on_target act w = let m = act w.target in (record w { target = m.0 }, m.1)

abbrev pub target_driver : {T : Type 0} → Driver T → Driver (World T)
target_driver D = record {
  upsert = λ t ks cs rows. on_target (D.upsert t ks cs rows);
  delete_keys = λ t ks rows. on_target (D.delete_keys t ks rows);
  update_columns = λ t ks cs rows. on_target (D.update_columns t ks cs rows);
  begin = on_target D.begin;
  commit = on_target D.commit;
  rollback = on_target D.rollback;
  ping = on_target D.ping;
}

-- `apply_batch if apply_batch and apply_batch > 0 else None`
abbrev pub limit_of : ℕ → Option ℕ
limit_of zero = none
limit_of (suc n) = some (suc n)

module _ {T : Type 0} (J : Journal) (D : Driver T) (cfg : Config) (name_of : String → String)
    (opts : Options) (name : String) where
  abbrev pub set_cursor : ℕ → World T → World T
  set_cursor cursor w = record w { registry = set_apply_cursor name cursor w.registry }

  -- The record is appended, its position is remembered, and it is counted.
  unfoldable pub park_letter : ChangeRecord → ℕ → World T → World T
  park_letter r cursor w = record w {
    letters = append_letter J r cursor w.letters;
    dead_seen = keep_pos J (some (pos_key J r)) w.dead_seen;
    poisoned = suc w.poisoned;
  }

  -- The circuit breaker, after a record was parked.
  unfoldable pub break_circuit : Action (World T) Bool
  break_circuit w =
      if not (opts.max_poison == 0) && ltb opts.max_poison w.poisoned
      then (w, none)
      else (w, some true)

  -- `key is not None and key in dead_seen`
  unfoldable pub is_parked : ChangeRecord → World T → Bool
  is_parked r w = elim (pos_key J r) [ none ↦ false | some key ↦ is_seen key w.dead_seen ]

  -- `_poison_cb(chunk_start)`
  unfoldable pub poison_cb : ℕ → OnPoison (World T)
  unfolding park_letter break_circuit is_parked
  poison_cb chunk_start r offset w =
      if is_parked r w
      then (w, some false)
      else break_circuit (park_letter r (chunk_start + offset) w)

  -- `_flush_from(base_cursor)`
  unfoldable pub flush_from : ℕ → OnFlush (World T)
  flush_from base_cursor consumed = set_cursor (base_cursor + consumed)

  abbrev pub add_outcome : Outcome → Outcome → Outcome
  add_outcome total out = (total.0 + out.0, total.1 ++ out.1)

  -- One segment of the chunk that begins on line `start`, with its cursor.
  unfoldable pub run_segment : ℕ → ℕ → ApplySegment → Action (World T) Outcome
  unfolding flush_from
  run_segment start consumed (atomic group) w =
      go_on
        (apply_txn (target_driver D) cfg name_of group opts.poison_retries (some (poison_cb start))
          consumed w)
        (λ out w'. (set_cursor (start + (consumed + length group)) w', some out))
  run_segment start consumed (barrier run) w =
      apply_barriered (target_driver D) cfg (flush_from (start + consumed)) opts.poison_retries
        (some (poison_cb (start + consumed))) run w

  abbrev pub segment_length : ApplySegment → ℕ
  segment_length (atomic group) = length group
  segment_length (barrier run) = length run

  -- The loop over the segments.
  unfoldable pub run_segments : ℕ → List ApplySegment → ℕ → Outcome → Action (World T) Outcome
  unfolding run_segment
  run_segments start [] consumed total w = (w, some total)
  run_segments start (seg ∷ segs) consumed total w =
      go_on (run_segment start consumed seg w)
        (λ out. run_segments start segs (consumed + segment_length seg) (add_outcome total out))

  -- What the loop over the chunks returns: `applied` and the warnings, `read_total`, `start`.
  abbrev pub Progress : Type 0
  Progress = Outcome × ℕ × ℕ

  -- The `while True` of the run: `none` inside is a run that is out of fuel. Every round but the
  -- last reads a record or more, so one more round than there are records is enough.
  unfoldable pub run_chunks :
      Codec → ℕ → Trail → ℕ → ℕ → Outcome → ℕ → Action (World T) (Option Progress)
  unfolding run_segments
  run_chunks C zero t start read_total total rounds w = (w, some none)
  run_chunks C (suc fuel) t start read_total total rounds w =
      elim (read_txn_aligned C rounds t start (limit_of opts.apply_batch) opts.txn_enabled) [
        | none ↦ (w, none)
        | some (records, next_cursor) ↦
            let segs = segment_for_apply records (is_keymove cfg) opts.txn_enabled in
            let stopped = if next_cursor == start then w else set_cursor next_cursor w in
            let more = go_on (run_segments start segs 0 total w) (λ total' w'.
              run_chunks C fuel t next_cursor (read_total + length records) total' rounds
                (set_cursor next_cursor w')) in
            if is_empty records then (stopped, some (some (total, read_total, start))) else more
      ]

  -- The start of a run in the inner `try`: the counter and the positions are fresh.
  unfoldable pub begin_run : World T → World T
  begin_run w =
      let seen = seen_source_positions J w.letters in
      record w { dead_seen = if opts.poison_retries == 0 then [] else seen; poisoned = 0 }

-- The summary that a run returns.
pub record Summary : Type 0 where
  pub applied : ℕ
  pub deleted : ℕ
  pub cursor : ℕ
  pub read_total : ℕ
  pub warnings : List Warning
  pub dead_lettered : ℕ
  pub dead_letter_total : ℕ

-- `constants.Edition`, and what `probe_capabilities` returns of it; the version is `_version_tuple`
-- of the server's banner.
pub data Edition : Type 0 where
  nano lite full postgres unknown : Edition

pub record Capabilities : Type 0 where
  pub edition : Edition
  pub version : Option (ℕ × ℕ × ℕ)

-- `ver < _NANO_MIN_CDC_VERSION`
abbrev pub is_before_min : ℕ × ℕ × ℕ → Bool
is_before_min (a, b, c) = ltb a 3 || (a == 3 && (ltb b 58 || (b == 58 && ltb c 5)))

-- The gate on the edition.
unfoldable pub refuses_edition : Capabilities → Bool
refuses_edition caps = elim caps.edition [
  | Edition.nano ↦ elim caps.version [ none ↦ true | some v ↦ is_before_min v ]
  | _ ↦ false
]

-- `rep.reconcile_deletes(adapter, chunk_size)`, where the run reconciles: the number of deleted
-- rows and the warnings.
abbrev pub Reconciler : Type 0 → Type 0
Reconciler T = Option (Action T Outcome)

module _ {T : Type 0} (J : Journal) (D : Driver T) (cfg : Config) (name_of : String → String)
    (opts : Options) (name : String) (C : Codec) (reconcile : Reconciler T) where
  abbrev pub reconciled : Action (World T) Outcome
  reconciled w = elim reconcile [ none ↦ (w, some (0, [])) | some act ↦ on_target act w ]

  abbrev pub summary_of : Progress J D cfg name_of opts name → Outcome → World T → Summary
  summary_of progress gone w = record {
    applied = progress.0.0;
    deleted = gone.0;
    cursor = progress.2;
    read_total = progress.1;
    warnings = progress.0.1 ++ gone.1;
    dead_lettered = w.poisoned;
    dead_letter_total = count w.letters;
  }

  -- `run_replicat` once the target is connected, with `fuel` rounds for each of the loops.
  unfoldable pub run_replicat : ℕ → Capabilities → Trail → Action (World T) (Option Summary)
  unfolding run_chunks begin_run refuses_edition
  run_replicat fuel caps t w = elim (Registry.get name w.registry) [
    | none ↦ (w, none)
    | some ext ↦
        let applied =
          go_on
            (run_chunks J D cfg name_of opts name C fuel (reconcile_purged t) ext.apply_cursor 0
              (0, []) fuel (begin_run J D cfg name_of opts name w))
            (λ progress w1. elim progress [
              | none ↦ (w1, some none)
              | some p ↦ go_on (reconciled w1) (λ gone w2. (w2, some (some (summary_of p gone w2))))
            ]) in
        if refuses_edition caps then (w, none) else applied
  ]
