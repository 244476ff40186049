-- ===== src/Lib.antt =====
-- The Arch User Repository web application: a model of the code that decides who may do what, and
-- of what happens to package bases, their followers and the requests about them.
--
-- Parts and files:
-- - Prelude: library names passed on, Boolean tests on the native numbers, and lemmas on lists.
-- - Models (aurweb/schema.py, aurweb/models): the rows of the tables. A row holds the columns that
--   the modelled code uses; a column that refers to another table holds its ID, and a nullable one
--   is an Option. Models/Accounts has users and sessions, Models/Packages has package bases and
--   what hangs on them.
-- - Auth (aurweb/auth, aurweb/models/user.py, aurweb/routers/auth.py): Creds is the credential
--   table with has_credential and can_edit_user, Sessions is BasicAuthBackend.authenticate, Login
--   is valid_password, login, logout and the session cookies, Required is what a route does before
--   its own code (_auth_required and account_type_required).
-- - Pkgbase (aurweb/pkgbase, aurweb/packages/requests.py): Comaintainers is
--   aurweb/pkgbase/util.py, Closures is ClosureFactory, Requests is handle_request and what it
--   calls, Merging is what pkgbase_merge_instance does to votes, notifications and comments,
--   Actions is the actions of aurweb/pkgbase/actions.py.
-- - Git (aurweb/git): Keys is auth.py, the line that sshd gets for a key, with what sshd and a shell
--   read in it; Serve is serve.py, the
--   commands of the SSH interface from the command line to the repository that git-shell is run
--   on, and Lint and Update are update.py, the hook that checks the commits of a push and stores
--   the packages.
-- - TrustedUser (aurweb/routers/trusted_user.py, aurweb/models/tu_voteinfo.py): the proposals of
--   trusted users, the votes on them, and the verdict.
-- - RateLimit (aurweb/ratelimit.py): how many requests an address has made in its window, in the
--   database.
-- - Users (aurweb/users/validate.py, aurweb/users/update.py, aurweb/routers/accounts.py): the
--   checks of an account form, the edit of an account, its SSH key, the reset of its password, and
--   registration.
-- - Routes (aurweb/routers/pkgbase.py, aurweb/routers/packages.py, aurweb/routers/requests.py,
--   aurweb/pkgbase/validate.py, aurweb/packages/util.py): what a route does for a user who is
--   signed in, from its guards to its redirect. Comments, Followers, Flags, Ownership, Removal and
--   Requests are the routes on one package base, Bulk is the actions on a selection of packages.
--   Steps has the routes as steps of the tables, and Consistency what every sequence of steps
--   keeps.
-- - Rpc (aurweb/rpc.py, aurweb/packages/search.py, aurweb/routers/rpc.py): the verification of a
--   request, the handlers of its types, the arguments of a query string, and the route.
-- - Notify (aurweb/scripts/notify.py): who gets which notification, and the removal of
--   comaintainers with the notifications that it makes.
-- - Scripts (aurweb/scripts/usermaint.py, pkgmaint.py, popupdate.py, tuvotereminder.py,
--   oodcheck.py): the upkeep of the tables.
-- - Util (aurweb/util.py): validators, and the shortest prefix of a commit.
--
-- A request enters through Required, with the account that Sessions found; a route of Routes asks
-- Creds, and calls an action of Pkgbase.Actions, which settles the requests through
-- Pkgbase.Requests and changes who maintains the base through Pkgbase.Comaintainers.
--
-- How state is modelled: a table is a list of rows, in the order in which the database returns
-- them, and an operation maps the tables before to the tables after. An exception is a value of a
-- result type; the tables of a failed transaction are those before it. The clock is read once per
-- call, except by login, which reads it once per try. Texts are compared character by character:
-- the collation of the database, which ignores case, is left out. Times, IDs and counts are
-- natural numbers, as the unsigned columns are; where the source subtracts times, the model
-- subtracts on the natural numbers, which agrees because the result is only compared with a number
-- that is not negative.
--
-- Bounds and fuel: login tries 36 times, as the source does, and the model counts them down;
-- git_search looks at one prefix for each character of the hash after the twelfth, which is its
-- fuel. No other loop needs fuel: all run over a list. A route takes the clock, the next ID of the
-- table that it inserts into and the configuration from the record Visit.
--
-- Parameters: bcrypt and hashlib (Auth.Login.Hashing), the clock, the random session IDs and reset
-- keys, and the conflicts that the database reports (Auth.Login.Tries), what the hook reads from a
-- commit and the regular expressions (Git.Lint), the validators of an account form (Users.Checks;
-- Util has those of names and of SSH keys; the strtobool of distutils is one of them), the text of
-- a Boolean cookie and whether a client still has a cookie, urlencode, the operator LIKE and the
-- order of names of the database (Rpc.RpcDb), the match of a callback's name and the sum of an
-- answer (Rpc.Handlers.rpc).
--
-- Pkgbase and Routes keep which notifications are sent. That making one may fail is modelled by
-- Notify and, for a maintainer who steps down, by Pkgbase.Actions; everything else in Pkgbase and
-- Routes leaves it out.
--
-- Not modelled: popularity (a floating-point sum in SQL), the texts and the delivery of
-- notifications, templates, translations, the search page, the pages of git repositories, rate
-- limits over redis, the sources, dependencies, relations and licenses of a pushed package, the
-- terms of service, and the web framework.
pub mod Prelude
pub mod Models
pub mod Auth
pub mod Git
pub mod Notify
pub mod Pkgbase
pub mod RateLimit
pub mod Routes
pub mod Rpc
pub mod Scripts
pub mod TrustedUser
pub mod Users
pub mod Util
