-- ===== src/Lib.antt =====
-- printer_nanny: the protocols and rules of the printer monitoring service that a mistake would
-- turn into wrong bills, lost readings or messages sent to the wrong customer. Central (central/)
-- keeps the database and the dashboard; a worker (central/worker/) runs periodic jobs; an agent
-- on each site (agent/) sweeps its subnets over SNMP and posts readings.
--
-- Billing models central/billing.py, with period_meters and positive_delta of central/queries.py
-- (Billing/Meters.antt) and round_money of central/money.py (Billing/Pricing.antt, with
-- tiered_cost); Billing/Invoicing.antt has _classify and build_invoice. A rate is in millionths
-- and an amount in hundredths of the currency, the scales to which the code quantizes both;
-- Python's decimals are exact at these sizes. An invoice is a function of the tables, as in the
-- code, so Billing keeps no state.
--
-- Money models central/money.py: Money.antt has Python's decimals as far as the module uses them,
-- Money/Input.antt the parsing and printing of rates and amounts, Money/Column.antt the column
-- type. A decimal is a sign, a coefficient and a number of places; the fuel of a number's
-- printing is the number, which has fewer digits.
--
-- Notify models the notifications of central/channels: Notify.antt the rows, the channels and
-- their due test, Notify/Sending.antt dispatch (registry.py) and record_dispatch,
-- Notify/Owed.antt _fan_out_owed, Notify/Retry.antt retry_due, Notify/Deferred.antt and
-- Notify/Flush.antt flush_deferred, all of delivery.py but for what is named first. They use the
-- one rule of Delivery.antt (_apply_result). Whether a session deletes a row that was never
-- flushed, which SQLAlchemy decides, is an argument; a cycle that raises gives no tables, as the
-- caller rolls back.
--
-- Stock models the shelves of cartridges (Stock/Views.antt what technicians are shown of them,
-- Stock/Counted.antt the counts of a reconciliation, Stock/Catalogue.antt the editing of the
-- catalogue): Stock/Matching.antt is central/supply_compatibility.py, Stock/Ledger.antt
-- central/supply_inventory.py (stock_items, reconcile_replacements, assign_usage). The comparison
-- forms of a text (central/supply_orders.py: one_line, normalized) and the substring test are
-- arguments, and the cycles of one reconciliation have distinct ids.
--
-- Calendar models central/business_calendar.py: Calendar.antt the holidays, is_business_day and
-- add_business_days, whose loop runs on fuel, since its closures are arbitrary, and a date is its
-- ordinal; Calendar/Dates.antt and Calendar/Settings.antt the reading of the settings, and
-- effective_order_window_days. The settings allow 120 business days and 366 closures at most, for
-- which fuel for 777 days is enough.
--
-- Alerts models the alerts of central/worker/jobs.py: Alerts.antt the rows, with emit of
-- central/events/emit.py, whose keys are an alert and its flap count, Alerts/Routing.antt
-- route_channels of central/channels/registry.py, Alerts/Conditions.antt, Alerts/Events.antt and
-- Alerts/Findings.antt what the rules of evaluate_alerts find, Alerts/Lifecycle.antt _open_alert,
-- _revive_flapping_alert, _notify_alert and _record_withheld, Alerts/Evaluate.antt
-- _resolve_stale, _escalate_alerts and evaluate_alerts, which send through Notify and ask
-- Suppression. Alerts/Steps.antt is the abstract life of an alert.
--
-- Collector models the lease that lets one of two agents collect a subnet. Collector.antt has the
-- row and the tests of central/collector.py (is_redundant, may_collect, holder_state, admits),
-- Collector/Lease.antt its conditional updates (renew_lease, grant_lease, release_lease,
-- seed_lease, renew_all), Collector/Worker.antt the jobs mark_offline_agents and
-- reassign_collectors of central/worker/jobs.py, Collector/Operator.antt _apply_standby and
-- subnet_handback of central/dashboard/manage.py, and Collector/Agent.antt CollectorLeases and
-- _may_collect of agent/printer_nanny_agent/runner.py. Collector/System.antt composes them to a
-- step relation: heartbeats are sent, served and received at different instants or never, the
-- worker acts on a row that it read earlier, and no two clocks agree.
--
-- Delivery models the event bus. Delivery.antt has the queue's row, backoff_delay and
-- _apply_result of central/channels/delivery.py; Delivery/Events.antt send_one and what
-- deliver_due does with one row (central/events/delivery.py, central/events/emit.py);
-- Delivery/Bus.antt the loop of deliver_due, and prune.
--
-- Spool models ReadingSpool of agent/printer_nanny_agent/spool.py; the operating system's
-- refusals are an argument of each call.
--
-- Suppression models central/suppression.py: Suppression.antt when a window is active and when it
-- ends, Suppression/Decide.antt evaluate, Suppression/Muting.antt the windows that count for a
-- message.
--
-- Retention models central/retention.py: Retention.antt has aggregate and merge,
-- Retention/Daily.antt _process_printer_day, whose commit or rollback is one step, and
-- Retention/Cycle.antt roll_up_readings, with the two forecast windows of 30 days that
-- central/queries.py and central/worker/jobs.py name; its loop recurs on the number of days
-- before the cutoff.
--
-- Throttle models central/ratelimit.py (Throttle.antt) and the sign-in route of
-- central/dashboard/routes.py at a wrong password (wrong_guess of Throttle/Budget.antt).
--
-- Instants are seconds, as natural numbers; the database's instants are UTC, so _aware changes
-- nothing. A column that may be NULL is an Option; a table is a list in the order of its ids. Log
-- lines, audit details and texts for people are not modelled, except that a delivery's reason is
-- a value. Settings that are negative are represented in Calendar only. An agent that is deleted,
-- which sets columns to NULL, is not modelled. In Collector/System.antt the lease length is one
-- constant, a heartbeat's handler is one step, and a standby is set on a subnet without one only
-- after the last expiry of its lease, which the code does not test. Billing and Retention take
-- the readings in the order of their instants. The key of a username (normalise_username) is an
-- argument. HTTP, secrets, the URL policy (Transport), time zones (Zone) and the disk (Faults)
-- are arguments.
--
-- Loops over a table are structural. ReadingSpool.drain takes the number of spooled readings as
-- fuel: each round but the last sends at least one, so the fuel lasts. A sweep of the event bus
-- stops after 200 due rows, as its query does.
--
-- Not modelled: the dashboard's views and forms, SNMP, IPP and HTTP traffic, packaging,
-- directories and sign-on, which are input and output around other people's code; and, of the
-- program's own rules, supply yields and reorders, maintenance schedules and forecasts,
-- freshness, remote access and the acceptance of readings.
mod Common
pub mod Alerts
pub mod Billing
pub mod Calendar
pub mod Collector
pub mod Delivery
pub mod Money
pub mod Notify
pub mod Retention
pub mod Spool
pub mod Stock
pub mod Suppression
pub mod Throttle
