-- ===== src/Lib.antt =====
-- shardVPN: a Lambda function that starts, describes and ends one Tailscale exit node on EC2, behind an
-- HMAC-signed Function URL, and an hourly sweep over all regions that ends expired and duplicate nodes
-- and mends the pointer to the current one.
--
-- The program's parts, and where they are modelled:
--
-- lambda/shardvpn/ttl.py: Ttl.antt, on the calendar of DateTime.antt and the modules below it. A
-- `datetime` is a count of microseconds since the year 1. Ttl/Lifetime.antt says what a TTL
-- means, Ttl/Deadline.antt has the properties.
--
-- lambda/shardvpn/settings.py: Settings.antt. The configuration is in SSM; `_SECRET_CACHE` is a part of
-- the state, since it lives as long as the process. Settings/Stored.antt is about the pointer,
-- Settings/Cached.antt about the cache.
--
-- lambda/shardvpn/auth.py: Auth.antt; Auth/Verified.antt has the property of `verify`.
--
-- lambda/shardvpn/ec2ops.py, tailscale.py, render.py, statusdoc.py: Ec2ops.antt, Tailscale.antt,
-- Render.antt, Statusdoc.antt. Tailscale/Choice.antt is about the choice of `find_device`.
--
-- lambda/shardvpn/watchdog.py: Watchdog.antt has the pure decisions, Watchdog/Step.antt and the modules
-- below it the four steps, Watchdog/Sweep.antt `sweep`, Watchdog/Message.antt the texts and
-- Watchdog/Summary.antt the summary dict. Watchdog/Reaping, Terminations, Dropped, Pointing and Acting follow
-- the terminations and the pointer through the steps, Watchdog/Totality the exceptions, Watchdog/Order is about
-- `_order_survivors` and Watchdog/Alert about `should_alert`, Watchdog/LastUse about `idle_seconds`.
--
-- lambda/shardvpn/handler.py: Handler.antt has the responses and the clock, Handler/Describe.antt
-- `_describe`, Handler/Action.antt `_status`, `_down` and `_up`, Handler/Entry.antt `lambda_handler`. A
-- function whose body goes on behind a guard is cut there: `up`, `up_at`, `up_new`, `up_in`, `up_until`,
-- `adopt_or_start` and `start` are `_up` from one guard to the next. Handler/Routing, Handler/Gate, Handler/Down,
-- Handler/Launching, Handler/Minting and Handler/Up have the properties.
--
-- How the parts interact: the handler calls auth with a secret that settings caches, and then one action; the
-- actions and the sweep call ec2ops, tailscale and settings, which call AWS and Tailscale; the handler and the
-- sweep share the pointer in SSM and the tags of the instances.
--
-- The outside (World.antt) is an environment of answers: each answer to a call of boto3, urllib or the clock
-- is a function of the calls made before it, so the outside may keep any state, change between two equal
-- calls, and fail at any call with any exception. An action (Exec.antt) reads the environment, appends its
-- calls to the history, and returns or raises; what was done before a raise stays done. Exec/Frame.antt has
-- rules for what an action leaves alone, Exec/Returns.antt for actions that return whatever fails,
-- Exec/Through.antt for a relation between the history before and behind. Frames.antt and the modules below
-- it apply the first to the actions of the program, up to a whole request and a whole sweep.
--
-- Choices: a `str` is a list of code points, bytes are numbers below 256, JSON is a data type
-- (Python/Json.antt). CloudWatch sums are natural numbers of bytes. A pointer whose fields are no `str`, which
-- the program never writes, counts as malformed. The texts of ValueErrors leave out the `repr` of the value,
-- which no caller reads. Header names are lowered on ASCII letters. The year is printed with four digits.
-- The file userdata.sh is read by a call, which may fail. The thread pool of the sweep runs the scans in the order of the regions,
-- which is the order of its results. Loops are structural recursion, so there is no fuel; the one loop over
-- digits in Python/Decimal.antt that has fuel is given a step for every digit.
--
-- Not modelled: logging; the text of userdata.sh and the Terraform configuration; the codecs of json, base64 and urllib,
-- and HMAC, which are parameters.
--
-- Python.antt, Python/Decimal.antt and DateTime.antt stand for what the program uses of the language and its
-- standard library, Prelude.antt for the shared names. Tests.antt has the properties at concrete inputs.
pub mod Prelude
pub mod Python
pub mod DateTime
pub mod Ttl
pub mod World
pub mod Exec
pub mod Boto
pub mod Settings
pub mod Ec2ops
pub mod Tailscale
pub mod Render
pub mod Statusdoc
pub mod Auth
pub mod Watchdog
pub mod Handler
pub mod Frames
pub mod Tests
