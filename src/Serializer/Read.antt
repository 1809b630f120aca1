-- ===== src/Serializer/Read.antt =====
-- ext/serializer.cpp: readAny, readStruct, readUnion, skip_n_type, skip_n_pair, and the entry points
-- serializer_readStruct and serializer_readUnion. The state is the protocol's and the cache.
use sparsam.Base.{
  ℕ, zero, suc, ℤ, txt, Bool, true, false, not, List, Option, none, some, if◌then◌else◌, find,
  int_key,
}
use sparsam.Serializer.Ruby
use sparsam.Serializer.Ruby.{Klass, Value, Values, Pairs, Ivars, Api, ivar_set, is_nil}
use sparsam.Serializer.Outcome
use sparsam.Serializer.Outcome.{
  Outcome, Exception, ok, raise, out_of_fuel, union_exception, unknown_type, wrong_field_type,
  null_dereference,
}
use sparsam.Serializer.Fields.{
  WireType, same_type, wire_id, FieldInfo, InfoRef, FieldInfoMap, Entry, Cache, null, ref,
  ttype_name, ftype, klass, sym_name, ivar_name, is_binary_string, element_type, key_type,
  find_or_create, t_bool, t_byte, t_double, t_i16, t_i32, t_i64, t_string, t_struct, t_map, t_set,
  t_list, t_stop,
}
use sparsam.Serializer.Protocol.{Reader, Call}

pub record RState (S : Type 0) : Type 0 where
  pub proto : S
  pub cache : Cache

module _ (api : Api) (fields : Klass → List (ℤ × Entry)) (p : Reader) where
  open p use {
    State, read_struct_begin, read_struct_end, read_field_begin, read_field_end, read_list_begin,
    read_list_end, read_set_begin, read_set_end, read_map_begin, read_map_end, read_bool, read_byte,
    read_i16, read_i32, read_i64, read_double, read_string, read_binary, skip,
  }

  abbrev pub M : Type 0 → Type 0
  M A = Call (RState State) A

  abbrev pub fail : {A : Type 0} → Exception → M A
  fail e s = raise e

  abbrev pub pure : {A : Type 0} → A → M A
  pure a s = ok (a, s)

  infixl 5 ◌>>=◌
  abbrev pub ◌>>=◌ : {A B : Type 0} → M A → (A → M B) → M B
  ◌>>=◌ first next s = Outcome.◌>>=◌ (first s) (λ r. next r.0 r.1)

  -- For effect only.
  infixl 5 ◌>>◌
  abbrev pub ◌>>◌ : {B : Type 0} → M (Unit {0}) → M B → M B
  first >> second = first >>= λ _. second

  -- A call of the protocol.
  abbrev pub call : {A : Type 0} → Call State A → M A
  call c s = Outcome.◌>>=◌ (c s.proto) (λ r. ok (r.0, record s { proto = r.1 }))

  -- FindOrCreateFieldInfoMap, and unions.count(klass) == 1.
  unfoldable pub cached_fields : Klass → M FieldInfoMap
  unfolding find_or_create
  cached_fields k s =
      let r = find_or_create api fields k s.cache in ok (r.0, record s { cache = r.1 })

  unfoldable pub is_union : Klass → M Bool
  is_union k s = ok (s.cache.unions k, s)

  unfoldable pub skip_n_type : ℕ → WireType → M (Unit {0})
  skip_n_type zero t = pure tt
  skip_n_type (suc n) t = call (skip t) >> skip_n_type n t

  unfoldable pub skip_n_pair : ℕ → WireType → WireType → M (Unit {0})
  skip_n_pair zero t u = pure tt
  skip_n_pair (suc n) t u = call (skip t) >> (call (skip u) >> skip_n_pair n t u)

  -- The loops that read a list and a map of a known size.
  unfoldable pub read_values : ℕ → M Value → M Values
  read_values zero read = pure Ruby.no_values
  read_values (suc n) read = do v ← read; vs ← read_values n read; pure (Ruby.value v vs)

  unfoldable pub read_pairs : ℕ → M Value → M Value → Pairs → M Pairs
  read_pairs zero key val ps = pure ps
  read_pairs (suc n) key val ps = do k ← key; v ← val; read_pairs n key val (api.hash_aset ps k v)

  -- readAny on a list or a set: nil where the element types differ.
  unfoldable pub read_elements :
      (WireType → FieldInfo → M Value)
      → InfoRef
      → WireType × ℕ
      → M (Unit {0})
      → (Values → Value)
      → M Value
  unfolding read_values skip_n_type
  read_elements read null (t, n) end make = skip_n_type n t >> pure Ruby.nil
  read_elements read (ref i) (t, n) end make =
      if not (same_type t (ftype i))
      then skip_n_type n t >> pure Ruby.nil
      else read_values n (read t i) >>= (λ vs. end >> pure (make vs))

  unfoldable pub read_map :
      (WireType → FieldInfo → M Value) → InfoRef → InfoRef → WireType × WireType × ℕ → M Value
  unfolding read_pairs skip_n_pair
  read_map read null e (t, u, n) = skip_n_pair n t u >> pure Ruby.nil
  read_map read (ref ki) null (t, u, n) = skip_n_pair n t u >> pure Ruby.nil
  read_map read (ref ki) (ref vi) (t, u, n) = do
    ps ← read_pairs n (read t ki) (read u vi) Ruby.no_pairs
    call read_map_end
    pure (Ruby.hash ps)

  -- rb_ivar_set, unless the value is nil
  abbrev pub store : Ivars → FieldInfo → Value → Ivars
  store vs i v = if is_nil v then vs else ivar_set vs (ivar_name i) v

  -- What the loop of readStruct does with a field that is no T_STOP; `again` is the next round.
  unfoldable pub read_field :
      (WireType → FieldInfo → M Value)
      → Klass
      → Option FieldInfo
      → WireType
      → Ivars
      → (Ivars → M Ivars)
      → M Ivars
  read_field read k none t vs again = do call (skip t); call read_field_end; again vs
  read_field read k (some i) t vs again =
      if not (same_type (ftype i) t)
      then fail (
          wrong_field_type (ttype_name (wire_id t)) (ttype_name (wire_id (ftype i))) k (sym_name i))
      else read t i >>= (λ v. call read_field_end >> again (store vs i v))

  -- while (true)
  unfoldable pub read_fields :
      (WireType → FieldInfo → M Value) → Klass → FieldInfoMap → ℕ → Ivars → M Ivars
  unfolding read_field
  read_fields read k m zero vs = λ s. out_of_fuel
  read_fields read k m (suc g) vs = call read_field_begin >>= λ b.
      if same_type b.0 t_stop
      then pure vs
      else read_field read k (find b.1 m) b.0 vs (read_fields read k m g)

  unfoldable pub read_struct : (WireType → FieldInfo → M Value) → ℕ → Klass → M Value
  unfolding read_fields cached_fields
  read_struct read g k = do
    m ← cached_fields k
    vs ← read_fields read k m g (api.new_ivars k)
    pure (Ruby.object k vs)

  -- The second half of readUnion, on the field that was announced.
  unfoldable pub read_union_field :
      (WireType → FieldInfo → M Value) → Option FieldInfo → WireType → Ivars → M Ivars
  read_union_field read none t vs = do call (skip t); call read_field_end; pure vs
  read_union_field read (some i) t vs = do
    v ← read t i
    call read_field_end
    b ← call read_field_begin
    let set = if is_nil v then vs else ivar_set vs (txt "@setfield") (Ruby.string true (sym_name i))
    if same_type b.0 t_stop then pure (store set i v) else fail union_exception

  unfoldable pub read_union : (WireType → FieldInfo → M Value) → Klass → M Value
  unfolding read_union_field cached_fields
  read_union read k = do
    m ← cached_fields k
    b ← call read_field_begin
    vs ←
        if same_type b.0 t_stop
        then pure (api.new_ivars k)
        else read_union_field read (find b.1 m) b.0 (api.new_ivars k)
    pure (Ruby.object k vs)

  module _ (budget : ℕ) where
    -- The body of readAny, over the reader of nested values. `budget` bounds the fields of a struct.
    unfoldable pub read_step : (WireType → FieldInfo → M Value) → WireType → FieldInfo → M Value
    unfolding read_elements read_map read_struct read_union is_union
    read_step read t_i16 i = call read_i16 >>= λ n. pure (Ruby.fixnum n)
    read_step read t_i32 i = call read_i32 >>= λ n. pure (Ruby.fixnum n)
    read_step read t_i64 i = call read_i64 >>= λ n. pure (api.ll2num n)
    read_step read t_bool i = call read_bool >>= λ b. pure (Ruby.bool b)
    read_step read t_double i = call read_double >>= λ d. pure (Ruby.float d)
    read_step read t_byte i = call read_byte >>= λ n. pure (Ruby.fixnum n)
    read_step read t_string i =
        if is_binary_string i
        then call read_binary >>= (λ b. pure (Ruby.string false b))
        else call read_string >>= (λ b. pure (Ruby.string true b))
    read_step read t_list i = call read_list_begin >>= λ b.
        read_elements read (element_type i) b (call read_list_end) Ruby.array
    read_step read t_set i = call read_set_begin >>= λ b.
        read_elements read (element_type i) b (call read_set_end) api.set_new
    read_step read t_struct i = do
      call read_struct_begin
      u ← is_union (klass i)
      v ← if u then read_union read (klass i) else read_struct read budget (klass i)
      call read_struct_end
      pure v
    read_step read t_map i =
        call read_map_begin >>= λ b. read_map read (key_type i) (element_type i) b
    read_step read t i = call (skip t) >> fail (unknown_type (wire_id t))

    -- readAny
    unfoldable pub read_any : ℕ → WireType → FieldInfo → M Value
    unfolding read_step
    read_any zero t i s = out_of_fuel
    read_any (suc f) t i s = read_step (read_any f) t i s

    -- serializer_readStruct and serializer_readUnion
    unfoldable pub deserialize : ℕ → Klass → M Value
    unfolding read_struct
    deserialize f k = do
      call read_struct_begin
      v ← read_struct (read_any f) budget k
      call read_struct_end
      pure v

    unfoldable pub deserialize_union : ℕ → Klass → M Value
    unfolding read_union
    deserialize_union f k = do
      call read_struct_begin
      v ← read_union (read_any f) k
      call read_struct_end
      pure v
