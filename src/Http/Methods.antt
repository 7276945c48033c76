-- ===== src/Http/Methods.antt =====
-- http/server.go: the test for the method does not stop a handler.
use frames.Base.{ℕ, String, Error, ◌≡◌, true, Dict, Result, ok, Result-cases, inl, inr, ◌>>=◌}
use frames.Api
use frames.Api.{TableRequest, Backend}
use frames.Http.{Env, Request, Reply, handle_create, handle_delete, handle_exec, handle_table}

abbrev pub status : Result Reply → Result ℕ
status r = do x ← r; ok x.status

status-handle_table :
    (env : Env) (op : TableRequest → Result (Unit {0})) (msg : Error → String) (req : Request)
    → status (handle_table env op msg req)
      ≡ status (handle_table env op msg (record req { is_post = true }))
status-handle_table env op msg req = elim (Result-cases (env.decode req.body)) [
  | inl (q, e) ↦ elim (Result-cases (op q)) [
    | inl (u, f) ↦ rw (e, f)
    | inr (inl (x, f)) ↦ rw (e, f)
    | inr (inr f) ↦ rw (e, f)
  ]
  | inr (inl (x, e)) ↦ rw e
  | inr (inr e) ↦ rw e
]

-- The status of the reply to a create, a delete or an exec, and so whether the API is called, does
-- not depend on the method: 405 is overwritten on every path.
status-method :
    (env : Env) (backends : Dict Backend) (req : Request)
    → let post = record req { is_post = true } in
      (status (handle_create env backends req) ≡ status (handle_create env backends post))
      × (status (handle_delete env backends req) ≡ status (handle_delete env backends post))
      × (status (handle_exec env backends req) ≡ status (handle_exec env backends post))
unfolding handle_create handle_delete handle_exec
status-method env backends req = (
  status-handle_table env (Api.create backends) (λ e. env.show e) req,
  status-handle_table env (Api.delete backends) (λ e. "can't delete") req,
  status-handle_table env (Api.exec backends) (λ e. "can't exec") req,
)
