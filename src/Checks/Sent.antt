-- ===== src/Checks/Sent.antt =====
-- What a run sends to the sandbox: the runner's template, filled.
use probavi.Base.{
  ◌≡◌, ◌≢◌, refl, sym, ap, ◌∙◌, ◌⊎◌, inl, inr, Bool, true, false, Option, none, some, List, [], ◌∷◌,
  Bool-cases, Option-cases, All, Bytes, if◌then◌else◌, beq, subst, codes,
}
use probavi.Base.Int.{ℤ, pos, eq_int}
use probavi.Manifest.{Expectation, sorted}
use probavi.Checks.Text.{has_part}
use probavi.Checks.Replace.{Replaced, replace-Replaced}
use probavi.Checks.Runner.{
  Deps, Login, Session, Fault, ExecRequest, ExecResult, done, fill, password_mark, render_argv,
  render_runner, render_env, render_command, filled_request, execute_request, succeeded, exited,
  log_runner_failure, first_arg, answer_query, sent, query,
}
use probavi.Config.Check.{CheckConfig, check_baseline}
use probavi.Checks.Kinds.{judge_expectation}
use probavi.Checks.Ends.{Ends, Left, Fits, from-Left}
use probavi.Checks.Loop.{run_from, run_checks}

-- The text `t` is `s` with the user, the database and then a statement for their marks.
pub record Filled (login : Login) (sql s t : Bytes) : Type 0 where
  pub with_user : Bytes
  pub with_database : Bytes
  pub user : Replaced (codes "{{user}}") login.user s with_user
  pub database : Replaced (codes "{{database}}") login.database with_user with_database
  pub statement : Replaced (codes "{{sql}}") sql with_database t

-- An argument is its template filled, which has no mark of the password.
pub record FilledArg (login : Login) (sql s t : Bytes) : Type 0 where
  pub unmarked : has_part password_mark s ≡ false
  pub filled : Filled login sql s t

-- A variable keeps its name, and in its value the password is put for its mark at the end.
pub record FilledVar (login : Login) (sql : Bytes) (s t : Bytes × Bytes) : Type 0 where
  pub name : t.0 ≡ s.0
  pub without_password : Bytes
  pub filled : Filled login sql s.1 without_password
  pub password : Replaced (codes "{{password}}") login.password without_password t.1

abbrev pub Each : {A : Type 0} → (A → A → Type 0) → List A → List A → Type 0
Each R [] [] = Unit
Each R (x ∷ xs) (y ∷ ys) = R x y × Each R xs ys
Each R _ _ = ⊥

-- The command line and the environment are the template's with one statement put in, and the
-- password stands in the environment only.
pub record Templated (deps : Deps) (req : ExecRequest) : Type 0 where
  pub sql : Bytes
  pub command : deps.runner.argv ≢ []
  pub argv : Each (FilledArg deps.target sql) deps.runner.argv req.argv
  pub env : Each (FilledVar deps.target sql) deps.runner.env req.env

abbrev pub AllTemplated : Deps → Session → Type 0
AllTemplated deps s = All (Templated deps) s.requests

fill-Filled : (t : Login) (sql s : Bytes) → Filled t sql s (fill t sql s)
unfolding fill
fill-Filled t sql s = record {
  with_user = _;
  with_database = _;
  user = replace-Replaced _ _ t.user s;
  database = replace-Replaced _ _ t.database _;
  statement = replace-Replaced _ _ sql _;
}

render_env-Each :
    (t : Login) (sql : Bytes) (env : List (Bytes × Bytes))
    → Each (FilledVar t sql) env (render_env t sql env)
unfolding render_env
render_env-Each t sql [] = tt
render_env-Each t sql (kv ∷ env) = (
  record {
    name = refl;
    without_password = _;
    filled = fill-Filled t sql kv.1;
    password = replace-Replaced _ _ t.password _;
  },
  render_env-Each t sql env,
)

render_argv-Each :
    (t : Login) (sql : Bytes) (argv filled : List Bytes)
    → render_argv t sql argv ≡ some filled
    → Each (FilledArg t sql) argv filled
unfolding render_argv
render_argv-Each t sql [] [] e = tt
render_argv-Each t sql [] (b ∷ filled) e = cc
render_argv-Each t sql (a ∷ argv) filled e = elim (Bool-cases (has_part password_mark a)) [
  | inl h ↦ absurd (cc (rw h at e))
  | inr h ↦ elim (Option-cases (render_argv t sql argv)) [
    | inl n ↦ absurd (cc (rw (h, n) at e))
    | inr (rest, r) ↦
        subst (Each (FilledArg t sql) (a ∷ argv)) (of_some (rw (h, r) at e)) (
          record { unmarked = h; filled = fill-Filled t sql a },
          render_argv-Each t sql argv rest r,
        )
  ]
]
  where
    of_some : {a b : List Bytes} → some a ≡ some b → a ≡ b
    of_some k = cc

answer-Ends :
    (deps : Deps) (req : ExecRequest) (o : Option ExecResult) (s : Session)
    → AllTemplated deps s
    → Ends (AllTemplated deps) (λ f. Unit) (answer_query deps req o s)
unfolding answer_query
answer-Ends deps req none s h = (h, tt)
answer-Ends deps req (some res) s h = by (eq_int res.exit_code (pos 0))
  where
    by :
        (b : Bool)
        → Ends
            (AllTemplated deps)
            (λ f. Unit)
            (if b
              then done (succeeded (deps.trim_space res.stdout)) s
              else done
                  (exited res.exit_code)
                  (record s { log = log_runner_failure deps (first_arg req.argv) res ∷ s.log }))
    by true = h
    by false = h

render_command-Templated :
    (deps : Deps) (sql : Bytes) (argv : List Bytes) (req : ExecRequest)
    → deps.runner.argv ≡ argv
    → render_command deps.runner deps.target sql argv ≡ inr req
    → Templated deps req
render_command-Templated deps sql [] req e k = cc
render_command-Templated deps sql (a ∷ argv) req e k =
    elim (Option-cases (render_argv deps.target sql (a ∷ argv))) [
      | inl n ↦ absurd (cc (sym (ap (filled_request deps.runner deps.target sql) n) ∙ k))
      | inr (filled, r) ↦
          subst (Templated deps)
            (of_inr (sym (ap (filled_request deps.runner deps.target sql) r) ∙ k))
            (record {
              sql = sql;
              command = λ q. cc (sym e ∙ q);
              argv =
                  subst (λ argv. Each (FilledArg deps.target sql) argv filled) (sym e)
                    (render_argv-Each deps.target sql (a ∷ argv) filled r);
              env = render_env-Each deps.target sql deps.runner.env;
            })
    ]
  where
    of_inr : {x y : ExecRequest} → Path (Fault ⊎ ExecRequest) (inr x) (inr y) → x ≡ y
    of_inr q = cc

query-Ends :
    (deps : Deps) (sql : Bytes) (s : Session)
    → AllTemplated deps s
    → Ends (AllTemplated deps) (λ f. Unit) (query deps sql s)
unfolding query render_runner
query-Ends deps sql s h = by (render_runner deps.runner deps.target sql) refl
  where
    by :
        (x : Fault ⊎ ExecRequest)
        → render_runner deps.runner deps.target sql ≡ x
        → Ends (AllTemplated deps) (λ f. Unit) (execute_request deps x s)
    by (inl f) e = (h, tt)
    by (inr req) e =
        answer-Ends deps req (deps.exec s.requests req) (sent req s)
          (render_command-Templated deps sql deps.runner.argv req refl e, h)

-- Whatever a run executes has the command line and the environment of the runner's template, with the
-- user, the database and one statement put for their marks, in this order, and after them the
-- password, in the environment only: no argument of the template has a mark of the password.
pub run_checks-Templated :
    (deps : Deps) (list : List CheckConfig) → AllTemplated deps (run_checks deps list).session
unfolding run_checks
run_checks-Templated deps list = run.kept
  where
    fits :
        (cs : List CheckConfig)
        → All
            (λ c.
              beq c.builtin check_baseline ≡ false
              → Fits deps (AllTemplated deps) (λ f. Unit) (query-Ends deps) tt tt c)
            cs
    fits [] = tt
    fits (c ∷ cs) = ((λ e. record { known = λ a b d e f. tt; bounded = λ a b n e. tt }), fits cs)

    judged :
        (ts : List (Bytes × Expectation))
        → All {0, 0} (λ t. (n : ℤ) → judge_expectation t.1 n ≡ none → Unit) ts
    judged [] = tt
    judged (t ∷ ts) = ((λ n e. tt), judged ts)

    run :
        Left
          (AllTemplated deps)
          (λ f. Unit)
          (run_from deps 0 list (record { requests = []; log = [] }))
    run =
        from-Left deps (AllTemplated deps) (λ f. Unit) (query-Ends deps) tt tt 0 list _ tt
          (fits list) (judged (sorted deps.baseline))
