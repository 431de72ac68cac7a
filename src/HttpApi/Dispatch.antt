-- ===== src/HttpApi/Dispatch.antt =====
-- Where a request to the server goes.
use mathlib.Core.List.{Memᴰ}
use vulpes_core.Base.{
  String, ◌≡◌, ◌≢◌, refl, sym, Bool, true, false, ◌&&◌, List, [], ◌∷◌, ◌==◌, none, some, inl, inr,
  arith, eq_iff, Bool-cases, All, ◌⊎◌,
}
use vulpes_core.HttpApi.Routes.{
  Route, methods_of, is_among, find_handler, allowed_methods, Endpoint,
}

-- A route of the table fits the method and the path.
pub record Fits (method path : String) (table : List Route) (handler : Endpoint) : Type 0 where
  pub route : Route
  pub listed : Memᴰ route table
  pub path_is : route.path ≡ path
  pub method_fits : is_among method (methods_of route.method) ≡ true
  pub handler_is : route.handler ≡ handler

-- A route of the table has the path, for the methods `ms` and not for `method`.
pub record Misfits (method path : String) (table : List Route) (ms : List String) : Type 0 where
  pub route : Route
  pub listed : Memᴰ route table
  pub path_is : route.path ≡ path
  pub methods_are : methods_of route.method ≡ ms
  pub method_misfits : is_among method ms ≡ false

both : (a b : Bool) → (a && b) ≡ true → (a ≡ true) × (b ≡ true)
both true true h = (refl, refl)
both true false h = absurd (ground (arith, h))
both false b h = absurd (ground (arith, h))

pub find_handler-Fits :
    (method path : String) (table : List Route) {e : Endpoint}
    → find_handler method path table ≡ some e
    → Fits method path table e
unfolding find_handler
find_handler-Fits method path [] h = absurd (ground (arith, h))
find_handler-Fits method path (r ∷ rs) h =
    elim (Bool-cases (is_among method (methods_of r.method) && path == r.path)) [
      | inl fits ↦
          let (a, b) = both (is_among method (methods_of r.method)) (path == r.path) fits in
          record {
            route = r;
            listed = Memᴰ.head refl;
            path_is = sym ((eq_iff path r.path).0 b);
            method_fits = a;
            handler_is = ground (arith, h, fits);
          }
      | inr other ↦
          let f = find_handler-Fits method path rs (ground (arith, h, other)) in
          record {
            route = f.route;
            listed = Memᴰ.tail f.listed;
            path_is = f.path_is;
            method_fits = f.method_fits;
            handler_is = f.handler_is;
          }
    ]

-- No route has the path, or the first that has it is for other methods.
pub allowed_methods-cases :
    (method path : String) (table : List Route)
    → find_handler method path table ≡ none
    → ((allowed_methods path table ≡ []) × All (λ r. path ≢ r.path) table)
      ⊎ Misfits method path table (allowed_methods path table)
unfolding find_handler allowed_methods
allowed_methods-cases method path [] h = inl (refl, tt)
allowed_methods-cases method path (r ∷ rs) h = elim (Bool-cases (path == r.path)) [
  | inl same ↦ inr (record {
    route = r;
    listed = Memᴰ.head refl;
    path_is = sym ((eq_iff path r.path).0 same);
    methods_are = ground (arith, same);
    method_misfits = ground (arith, h, same);
  })
  | inr other ↦ elim (allowed_methods-cases method path rs (ground (arith, h, other))) [
    | inl (none_allowed, no_path) ↦ inl (
      ground (arith, other, none_allowed),
      ((λ e. ground (arith, other, e, eq_iff path r.path)), no_path),
    )
    | inr m ↦ inr (record {
      route = m.route;
      listed = Memᴰ.tail m.listed;
      path_is = m.path_is;
      methods_are = ground (arith, other, m.methods_are);
      method_misfits = ground (arith, other, m.method_misfits);
    })
  ]
]

-- A pattern has a method.
pub methods_of_some : (method : String) → methods_of method ≢ []
methods_of_some method h = ground (arith, h)
