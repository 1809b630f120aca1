-- ===== src/Tests/Serializing.antt =====
-- Objects of the class of Demo, written and read.
use sparsam.Base.{
  pos, none, find, ◌≤◌, ◌≡◌, ◌≢◌, refl, [], ◌++◌, some, length, txt, true, false, arith, insert,
  int_key, text_eq,
}
use sparsam.Serializer.Ruby
use sparsam.Serializer.Ruby.{Klass, Value, Pairs, Ivars, Api, IsExact, ivar_get, ivar_set}
use sparsam.Serializer.Outcome.{ok, out_of_fuel, ◌>>=◌}
use sparsam.Serializer.Fields.{
  create_field_info_map, fill_field_map, create_field_info, to_field_id, find_or_create, info, null,
  t_struct,
}
use sparsam.Serializer.FieldMap.{IsCoherent, find_or_create_lem}
use sparsam.Serializer.Write.{serialize}
use sparsam.Serializer.Read.{deserialize}
use sparsam.Serializer.RoundTrip.Revive.{revive, revive_fields}
use sparsam.Serializer.RoundTrip.Main.{deserialize-serialize}
use sparsam.Serializer.Accepts.{IsComplete, serialize-IsComplete}
use sparsam.Serializer.Terminates.Loops.{size}
use sparsam.Serializer.Terminates.Main.{serialize-Returns}
use sparsam.Serializer.Read.{deserialize_union}
use sparsam.Serializer.RoundTrip.SetFields.{set_fields, read_back}
use sparsam.Serializer.RoundTrip.Results.{Results}
use sparsam.Serializer.FieldLookup.{Answers, last_entry, find-create_field_info_map}
use sparsam.Serializer.RoundTrip.Union.{deserialize_union-serialize}
use sparsam.Tests.Demo.{
  demo-enough, demo-readable, demo_events, demo_fields, demo_ivars, empty_cache,
  empty_cache-IsCoherent, demo_warm, warm_cache, warm_cache-IsReady, ruby, ruby-IsExact,
  serialize-demo, tape, tape-Delivers,
}

deserialize-serialize_example :
    Results tape tape-Delivers ruby demo_fields demo_warm
      (deserialize ruby demo_fields tape 4 3 1)
      (record { proto = demo_events ++ []; cache = warm_cache })
      (revive_fields ruby
          (revive ruby (λ j. create_field_info_map (demo_fields j)) 3)
          (create_field_info_map (demo_fields 1))
          demo_ivars
          Ruby.no_ivars
        >>= (λ us. ok (Ruby.object 1 us)))
      []
deserialize-serialize_example =
    deserialize-serialize tape tape-Delivers ruby demo_fields demo_warm ruby-IsExact 4 demo-readable
      demo-enough 3 1 demo_ivars demo_events serialize-demo
      (record { proto = demo_events ++ []; cache = warm_cache }) [] (refl, warm_cache-IsReady)

-- The union arrives with the name of its field in @setfield.
demo_revived :
    (us : Ivars) × (revive ruby
        (λ j. create_field_info_map (demo_fields j))
        2
        (info t_struct 2 (txt "choice") true false null null)
        (Ruby.object 2 (Ruby.ivar (txt "@text") (Ruby.string true (txt "y")) Ruby.no_ivars))
      ≡ ok (Ruby.object 2 us))
    × (ivar_get us (txt "@setfield") ≡ Ruby.string true (txt "text"))
unfolding revive set_fields create_field_info_map insert fill_field_map to_field_id
    create_field_info ivar_get ivar_set text_eq
demo_revived = (_, refl, refl)

demo-size : size (Ruby.object 1 demo_ivars) ≤ 3
unfolding size
demo-size = omega arith

serialize-Returns_example :
    serialize ruby (λ j. create_field_info_map (demo_fields j)) 3 1 (Ruby.object 1 demo_ivars)
    ≢ out_of_fuel
serialize-Returns_example =
    serialize-Returns ruby (λ j. create_field_info_map (demo_fields j)) 3 1
      (Ruby.object 1 demo_ivars) demo-size

find_or_create_lem_example :
    let r = find_or_create ruby demo_fields 1 empty_cache in
    (r.0 ≡ create_field_info_map (demo_fields 1))
    × IsCoherent ruby demo_fields r.1
    × (r.1.klass_cache 1 ≡ some (create_field_info_map (demo_fields 1)))
    × (r.1.unions 1 ≡ ruby.inherits_union 1)
find_or_create_lem_example =
    find_or_create_lem ruby demo_fields 1 empty_cache empty_cache-IsCoherent

find-create_field_info_map_example :
    Answers
      (last_entry (pos 2) none (demo_fields 1))
      (find (pos 2) (create_field_info_map (demo_fields 1)))
find-create_field_info_map_example = find-create_field_info_map (demo_fields 1) (pos 2)

serialize-IsComplete_example :
    (vs : Ivars) × (Ruby.object 1 demo_ivars ≡ Ruby.object 1 vs)
    × IsComplete (create_field_info_map (demo_fields 1)) vs
serialize-IsComplete_example =
    serialize-IsComplete ruby (λ j. create_field_info_map (demo_fields j)) 3 1
      (Ruby.object 1 demo_ivars) demo_events serialize-demo

-- Read as a union, the object has two fields too many.
deserialize_union-serialize_example :
    Results tape tape-Delivers ruby demo_fields demo_warm
      (deserialize_union ruby demo_fields tape 4 3 1)
      (record { proto = demo_events ++ []; cache = warm_cache })
      (read_back ruby 1
        (revive ruby (λ j. create_field_info_map (demo_fields j)) 3)
        (set_fields (create_field_info_map (demo_fields 1)) demo_ivars)
        demo_ivars)
      []
deserialize_union-serialize_example =
    deserialize_union-serialize tape tape-Delivers ruby demo_fields demo_warm ruby-IsExact 4
      demo-readable demo-enough 3 1 demo_ivars demo_events serialize-demo
      (record { proto = demo_events ++ []; cache = warm_cache }) [] (refl, warm_cache-IsReady)

demo_set : length (set_fields (create_field_info_map (demo_fields 1)) demo_ivars) ≡ 3
unfolding set_fields create_field_info_map insert fill_field_map to_field_id create_field_info
    ivar_get text_eq
demo_set = refl
