-- ===== src/Persistence/WorkerEvents/Once.antt =====
-- An event is stored once: the first one with its id stays.
use swr_ddd.Common.{
  Bool, true, false, not, Option, none, some, List, [], ◌∷◌, ◌++◌, ◌≡◌, refl, ap, sym, ◌∙◌,
  returned, raised, ◌>>=◌, arith, is_some, Outcome, did_return, Yields,
}
use swr_ddd.Common.Text.{Text, text_eq}
use swr_ddd.Common.Dict.{Dict}
use swr_ddd.Persistence.Wire.{
  Datetime, IsLawful, StoreError, wire_of, to_wire_ts-aware, from_wire_ts-wire,
}
use swr_ddd.Persistence.Sql.{Table, IsTable, any, first, Inserted}
use swr_ddd.Persistence.Sql.Keyed.{find, any-find, append-mine, append-other}
use swr_ddd.Persistence.WorkerEvents.{
  Json, WorkerEventRow, event_id_of, to_json, from_json, WorkerEventRecord, ReadEvent, event_of_row,
  event_of_first, get_by_event_id, inserted_or_known, append_event,
}

-- the primary key
abbrev pub same_event_id : WorkerEventRow → WorkerEventRow → Bool
same_event_id a b = text_eq b.event_id a.event_id

module _ (d : Datetime) (j : Json) where
  -- the event as it is read back, with its payload as `json` gives it back
  abbrev pub read_back : WorkerEventRecord d j → Dict j.Value → ReadEvent d j
  read_back e payload = record {
    event_id = e.event_id;
    columns = e.columns;
    occurred_at = d.to_utc e.occurred_at;
    observed_at = d.to_utc e.observed_at;
    payload = payload;
  }

  -- the stored event, or the new one
  abbrev pub first_of : Option (ReadEvent d j) → ReadEvent d j → ReadEvent d j
  first_of none e = e
  first_of (some stored) e = stored

  module _ (laws : IsLawful d) (T : Table WorkerEventRow)
      (table : IsTable WorkerEventRow T same_event_id) where
    -- It returned whether the event is new, and what is read of the two ids is this.
    pub record Appends (id other : Text) (is_new : Bool) (mine : ReadEvent d j)
        (others : Outcome StoreError (Option (ReadEvent d j)))
        (r : Outcome StoreError (Bool × T.State)) : Type 0 where
      pub returns : did_return r ≡ true
      pub says_new : Yields (λ (ok, s). ok ≡ is_new) r
      pub mine_read : Yields (λ (ok, s). get_by_event_id d j T id s ≡ returned (some mine)) r
      pub others_kept : Yields (λ (ok, s). get_by_event_id d j T other s ≡ others) r

    abbrev read_rows : Text → List WorkerEventRow → Outcome StoreError (Option (ReadEvent d j))
    read_rows id rows = event_of_first d j (find event_id_of id rows)

    get-rows : (id : Text) (s : T.State) → get_by_event_id d j T id s ≡ read_rows id (T.rows s)
    unfolding get_by_event_id
    get-rows id s =
        ap (λ rows. event_of_first d j (first rows))
          (table.select_rows (λ row. text_eq row.event_id id) s)

    abbrev found_one :
        Outcome StoreError (ReadEvent d j) → Outcome StoreError (Option (ReadEvent d j))
    found_one x = x >>= λ r. returned (some r)

    module _ (e : WorkerEventRecord d j) (written : Option Text) (payload : Dict j.Value)
        (loaded : from_json j written ≡ returned payload) (other : Text) (s : T.State) where
      abbrev pub event_row : WorkerEventRow
      event_row = record {
        event_id = e.event_id;
        columns = e.columns;
        occurred_at = wire_of d e.occurred_at;
        observed_at = wire_of d e.observed_at;
        payload = written;
      }

      event_row-read : event_of_row d j event_row ≡ returned (read_back e payload)
      event_row-read =
          rw
            (from_wire_ts-wire d laws e.occurred_at, from_wire_ts-wire d laws e.observed_at, loaded)
            refl

      Inserted-Appends :
          (o : Option T.State)
          → find event_id_of e.event_id (T.rows s) ≡ none
          → is_some o ≡ true
          → Inserted T (T.rows s ++ event_row ∷ []) o
          → text_eq e.event_id other ≡ false
          → Appends e.event_id other true
              (read_back e payload)
              (read_rows other (T.rows s))
              (inserted_or_known d j T e.event_id s o)
      Inserted-Appends none missing ok h ne = absurd (ground arith)
      Inserted-Appends (some s') missing ok h ne = record {
        returns = refl;
        says_new = refl;
        mine_read =
            get-rows e.event_id s'
            ∙ ap (read_rows e.event_id) h
            ∙ ap (event_of_first d j)
                (append-mine event_id_of e.event_id (T.rows s) event_row refl missing)
            ∙ ap found_one event_row-read;
        others_kept =
            get-rows other s'
            ∙ ap (read_rows other) h
            ∙ ap (event_of_first d j)
                (append-other event_id_of e.event_id other (T.rows s) event_row refl ne);
      }

      known-Appends :
          (stored : ReadEvent d j)
          → get_by_event_id d j T e.event_id s ≡ returned (some stored)
          → Appends e.event_id other false stored
              (read_rows other (T.rows s))
              (inserted_or_known d j T e.event_id s none)
      known-Appends stored known = rw known record {
        returns = refl;
        says_new = refl;
        mine_read = known;
        others_kept = get-rows other s;
      }

      some_of :
          (x : Outcome StoreError (ReadEvent d j)) (stored : Option (ReadEvent d j))
          → found_one x ≡ returned stored
          → (r : ReadEvent d j) × (stored ≡ some r)
      some_of (raised x) stored h = cc
      some_of (returned r) stored h = (r, cc)

      either-Appends :
          (o : Option WorkerEventRow) (stored : Option (ReadEvent d j))
          → find event_id_of e.event_id (T.rows s) ≡ o
          → event_of_first d j o ≡ returned stored
          → get_by_event_id d j T e.event_id s ≡ returned stored
          → (any (same_event_id event_row) (T.rows s) ≡ false
              → is_some (T.insert event_row s) ≡ true)
          → text_eq e.event_id other ≡ false
          → Appends e.event_id other
              (not (is_some stored))
              (first_of stored (read_back e payload))
              (read_rows other (T.rows s))
              (inserted_or_known d j T e.event_id s (T.insert event_row s))
      either-Appends none stored missing read got fresh ne =
          let nothing : stored ≡ none = cc in
          rw nothing (
            Inserted-Appends (T.insert event_row s) missing
              (fresh (any-find event_id_of e.event_id (T.rows s) ∙ ap is_some missing))
              (table.insert_rows event_row s) ne)
      either-Appends (some row) stored found read got fresh ne =
          let (r, one) = some_of (event_of_row d j row) stored read in
          rw
            (
              one,
              table.insert_conflict event_row s
                  (any-find event_id_of e.event_id (T.rows s) ∙ ap is_some found),
            )
            (known-Appends r (got ∙ ap returned one))

      -- An event with aware times, whose payload `json` writes and reads back, whose insert meets no
      -- other constraint than the primary key, and whose stored namesake, if there is one, is read
      -- without an exception, is appended without one: the answer says whether its id is new,
      -- afterwards the first event with the id is read, and what is read of another id stays.
      pub append_event-Appends :
          (stored : Option (ReadEvent d j))
          → get_by_event_id d j T e.event_id s ≡ returned stored
          → d.is_aware e.occurred_at ≡ true
          → d.is_aware e.observed_at ≡ true
          → to_json j e.payload ≡ returned written
          → (any (same_event_id event_row) (T.rows s) ≡ false
              → is_some (T.insert event_row s) ≡ true)
          → text_eq e.event_id other ≡ false
          → Appends e.event_id other
              (not (is_some stored))
              (first_of stored (read_back e payload))
              (get_by_event_id d j T other s)
              (append_event d j T e s)
      unfolding append_event
      append_event-Appends stored got occurred observed dumped fresh ne =
          let mine = find event_id_of e.event_id (T.rows s) in
          let read = sym (get-rows e.event_id s) ∙ got in
          rw
            (
              get-rows other s,
              to_wire_ts-aware d e.occurred_at occurred,
              to_wire_ts-aware d e.observed_at observed,
              dumped,
            )
            (either-Appends mine stored refl read got fresh ne)
