-- ===== src/Attributes/Request.antt =====
-- UpdateRequest of src/dell-resources/attributes/controller-new.go: a PATCH of attributes sends one
-- request for each, and waits for their answers.
use sailfish.Base.{
  Bool, List, Option, String, [], false, get_elem?, if◌then◌else◌, length, ltb, none, not, some,
  str_eq, suc, take, zero, ℕ, ◌*◌, ◌++◌, ◌+◌, ◌-◌, ◌<>◌, ◌==◌, ◌>>=◌, ◌||◌, ◌∷◌,
}
use sailfish.Property.{Fields, Value, end, field}
use sailfish.Resource.Escape.{split}
use sailfish.Http.Privileges.{is_authorized, privilege_bits_to_strings}

-- PrivilegeData, but for what writing does not look at.
pub record PrivilegeData : Type 0 where
  pub write_privilege : ℕ
  pub readonly : Bool
  pub private : Bool

abbrev pub no_privilege_data : PrivilegeData
no_privilege_data = record { write_privilege = 0; readonly = false; private = false }

-- The value of an attribute as WriteAllowed meets it: a number or a text, or something that is
-- decoded, or not, as AttributeData.
pub data AttrValue : Type 0 where
  scalar : AttrValue
  decoded : PrivilegeData → AttrValue
  undecodable : AttrValue

unfoldable pub bits_allow : PrivilegeData → List String → Bool
bits_allow p user = not (
    p.private
    || (p.readonly || not (is_authorized user (privilege_bits_to_strings p.write_privilege))))

-- WriteAllowed, on a new AttributeData.
unfoldable pub write_allowed : AttrValue → List String → Bool
unfolding bits_allow
write_allowed scalar user = bits_allow no_privilege_data user
write_allowed (decoded p) user = bits_allow p user
write_allowed undecodable user = false

-- AttributeUpdateRequestData; the authorization is that of the user.
pub record UpdateRequest : Type 0 where
  pub req_id : String
  pub fqdd : String
  pub group : String
  pub index : String
  pub name : String
  pub value : Value

-- What the first loop has made.
pub record Requested : Type 0 where
  pub req_ids : List String
  pub errs : List String
  pub published : List UpdateRequest

unfoldable pub unknown_property : String → String
unknown_property k =
    "The property " <> (k <> " is not in the list of valid properties for the resource.")

unfoldable pub read_only_property : String → String
read_only_property k =
    "The property " <> (k <> " is a read only property and cannot be assigned a value")

-- The request goes to the first fqdd of the model: forwardMapping[b.m][0] panics where there is none.
unfoldable pub publish_request : List String → UpdateRequest → Requested → Option Requested
publish_request [] request r = none
publish_request (fqdd ∷ more) request r = some (record r {
  req_ids = r.req_ids ++ (request.req_id ∷ []);
  published = r.published ++ (record request { fqdd = fqdd } ∷ []);
})

-- `response id k sort` is the canned response with an error; `attr` is getAttrValue; `ids n` is the
-- new identifier of the property number n; `fqdds` is b.s.forwardMapping[b.m], empty for a model that is
-- closed. none is a panic.
module _ (response : String → String → String → String)
    (attr : String → String → String → Option AttrValue) (ids : ℕ → String) (fqdds : List String)
    (user : List String) where
  abbrev refuse : String → Requested → Requested
  refuse err r = record r { errs = r.errs ++ (err ∷ []) }

  -- One property of the request that has three parts.
  unfoldable pub request_parts :
      ℕ → String → Value → String → String → String → Requested → Option Requested
  unfolding write_allowed unknown_property read_only_property publish_request
  request_parts n k v group index name r = elim (attr group index name) [
    | none ↦ some (refuse (response (unknown_property k) k "Base.1.0.PropertyUnknown") r)
    | some a ↦
        if not (write_allowed a user)
        then some (refuse (response (read_only_property k) k "Base.1.0.PropertyNotWritable") r)
        else publish_request fqdds
            (record {
              req_id = ids n;
              fqdd = "";
              group = group;
              index = index;
              name = name;
              value = v;
            })
            r
  ]

  -- The names of the parts: strings.Split(k, ".") has to have three.
  unfoldable pub request_one : ℕ → String → Value → List String → Requested → Option Requested
  unfolding request_parts unknown_property
  request_one n k v (group ∷ index ∷ name ∷ []) r = request_parts n k v group index name r
  request_one n k v parts r =
      some (refuse (response (unknown_property k) k "Base.1.0.PropertyUnknown") r)

  -- for k, v := range value.(map[string]interface{})
  unfoldable pub request_all : ℕ → Fields → Requested → Option Requested
  unfolding request_one split
  request_all n end r = some r
  request_all n (field k v fs) r =
      request_one n k v (split b'.' k) r >>= λ next. request_all (suc n) fs next

-- What the second loop waits for: an answer with its error, "" for none; the timer; or the end of
-- the request's context.
pub data Happening : Type 0 where
  updated : String → String → Happening
  timer_fires context_done : Happening

-- The variables of the second loop.
pub record Waiting : Type 0 where
  pub req_ids : List String
  pub errs : List String
  pub num_success : ℕ

-- domain.HTTP_code: the errors and the number of successes.
pub data Outcome : Type 0 where
  waits : Waiting → Outcome
  answered timed_out abandoned : List String → ℕ → Outcome

-- for i, reqID := range reqIDs { if reqID == data.ReqID
unfoldable pub index_of : String → List String → Option ℕ
index_of id [] = none
index_of id (r ∷ rs) =
    if str_eq r id then some 0 else elim (index_of id rs) [ none ↦ none | some i ↦ some (suc i) ]

-- reqIDs[i] = x
unfoldable pub put_at : ℕ → String → List String → List String
put_at i x [] = []
put_at zero x (r ∷ rs) = x ∷ rs
put_at (suc i) x (r ∷ rs) = r ∷ put_at i x rs

-- reqIDs[i] = reqIDs[len(reqIDs)-1]; reqIDs = reqIDs[:len(reqIDs)-1]
unfoldable pub drop_id : ℕ → List String → List String
unfolding put_at
drop_id i rs = elim (get_elem? rs (length rs - 1)) [
  | none ↦ rs
  | some last ↦ take (length rs - 1) (put_at i last rs)
]

unfoldable pub take_answer : String → String → Waiting → Waiting
unfolding index_of drop_id
take_answer id err w = elim (index_of id w.req_ids) [
  | none ↦ w
  | some i ↦
      if str_eq err ""
      then record w { req_ids = drop_id i w.req_ids; num_success = w.num_success + 1 }
      else record w { req_ids = drop_id i w.req_ids; errs = w.errs ++ (err ∷ []) }
]

-- The second loop on what happens, one thing after another.
unfoldable pub collect : String → List Happening → Waiting → Outcome
unfolding take_answer
collect timeout_response [] w = waits w
collect timeout_response (updated id err ∷ es) w =
    let w' = take_answer id err w in
    let rest = collect timeout_response es w' in
    if length w'.req_ids == 0 then answered w'.errs w'.num_success else rest
collect timeout_response (timer_fires ∷ es) w = timed_out (timeout_response ∷ []) w.num_success
collect timeout_response (context_done ∷ es) w = abandoned [] w.num_success

-- The seconds of the timer are at least 30.
unfoldable pub timer_seconds : List String → ℕ
timer_seconds ids = if ltb (10 * length ids) 30 then 30 else 10 * length ids

unfoldable pub finish_request : String → Requested → List Happening → Outcome
unfolding collect
finish_request timeout_response r es =
    if length r.req_ids == 0
    then answered r.errs 0
    else collect timeout_response es
        (record { req_ids = r.req_ids; errs = r.errs; num_success = 0 })

-- UpdateRequest: both loops.
unfoldable pub update_request :
    (String → String → String → String)
    → (String → String → String → Option AttrValue)
    → (ℕ → String)
    → List String
    → List String
    → String
    → Fields
    → List Happening
    → Option Outcome
unfolding request_all finish_request
update_request response attr ids fqdds user timeout_response fs es = do
  asked ←
      request_all response attr ids fqdds user 0 fs
        (record { req_ids = []; errs = []; published = [] })
  some (finish_request timeout_response asked es)
