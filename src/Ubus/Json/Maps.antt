-- ===== src/Ubus/Json/Maps.antt =====
-- `Map::insert` of fields whose keys come in order appends them.
use zwrt_datad.Prelude.{◌≡◌, refl, ap, false}
use zwrt_datad.Prelude.Text.{Bytes, text_eq, text_lt}
use zwrt_datad.Ubus.Json.{Value, Fields, end, entry, insert}
use zwrt_datad.Ubus.Json.Plain.{IsAhead}

-- `k` is new behind all keys of the map.
abbrev pub IsNew : Bytes → Fields → Type 0
IsNew k end = Unit
IsNew k (entry name v fields) = (text_eq k name ≡ false) × (text_lt k name ≡ false) × IsNew k fields

abbrev pub AllNew : Fields → Fields → Type 0
AllNew end map = Unit
AllNew (entry k v fields) map = IsNew k map × AllNew fields map

abbrev pub join : Fields → Fields → Fields
join end fields = fields
join (entry k v map) fields = entry k v (join map fields)

pub insert-join :
    (k : Bytes) (v : Value) (map : Fields) → IsNew k map → insert k v map ≡ join map (entry k v end)
unfolding insert
insert-join k v end h = refl
insert-join k v (entry name w map) (e, l, h) = rw (e, l) (ap (entry name w) (insert-join k v map h))

pub join_assoc :
    (map : Fields) (k : Bytes) (v : Value) (fields : Fields)
    → join (join map (entry k v end)) fields ≡ join map (entry k v fields)
join_assoc end k v fields = refl
join_assoc (entry name w map) k v fields = ap (entry name w) (join_assoc map k v fields)

pub join-end : (map : Fields) → join map end ≡ map
join-end end = refl
join-end (entry k v map) = ap (entry k v) (join-end map)

pub IsNew-join :
    (k name : Bytes) (v : Value) (map : Fields)
    → IsNew k map
    → text_eq k name ≡ false
    → text_lt k name ≡ false
    → IsNew k (join map (entry name v end))
IsNew-join k name v end h e l = (e, l, tt)
IsNew-join k name v (entry n w map) (e', l', h) e l = (e', l', IsNew-join k name v map h e l)

pub AllNew-join :
    (fields : Fields) (name : Bytes) (v : Value) (map : Fields)
    → AllNew fields map
    → IsAhead name fields
    → AllNew fields (join map (entry name v end))
AllNew-join end name v map h a = tt
AllNew-join (entry k w fields) name v map (h, hs) (e, l, a) =
    (IsNew-join k name v map h e l, AllNew-join fields name v map hs a)

pub AllNew-end : (fields : Fields) → AllNew fields end
AllNew-end end = tt
AllNew-end (entry k v fields) = (tt, AllNew-end fields)
