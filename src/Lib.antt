-- ===== src/Lib.antt =====
-- NF Compose, a low code platform for data integration: the client library compares the
-- definitions that two instances hold and moves one towards the other; the server, skipper, stores
-- data series, their structure and their data points.
--
-- The parts that are modelled, each with the file under client/compose_client/library/:
--   * Client/Models: the definitions (models/definition/*.py) as records, and their generated
--     equality. The record Runtime holds what Python gives and this code only calls: the equality
--     of dictionaries and of floats, and the order in which a set is walked.
--   * Client/Operation: an operation on an instance (models/operation/general.py). The operations
--     with an external id and those with a name are one record, with the key as an option.
--   * Client/Serializer: to_dict of each class, which dataclasses_json generates, is a parameter.
--   * Client/DomainAliases: invert_dict (models/domain_aliases.py).
--   * Client/Diff/Models: the diffs and their emptiness tests (models/diff/*.py).
--   * Client/Diff and its modules: service/diff.py. Child has list_diff_dataseries_child and its two
--     instances, Groups has group_permissions_diff, DataSeries, Engines, HttpEndpoints and UserGroups
--     have the diff of one definition of each kind and of all of them, DataPoints that of data points.
--   * Client/Rest: the interface APIClient of connection/client.py and read_paginated_all of
--     connection/read.py. A statement maps the requests sent so far to those sent after it and to its
--     result or exception; what the server answers is any function of the requests. Client/Rest/Hidden
--     has FeatureHidingClient, a client made of another one.
--   * Client/Push: service/pusher.py. Series has the push of data series, Structure what is sent for
--     its facts and dimensions, Served where the URLs and ids come from that it looks up, Others the
--     push of engines, HTTP endpoints, groups and views, Chunks that of data points. Where the code
--     changes the payload of an operation in place, the model sends a changed copy.
--   * Client/Diff/Remote: what an instance does with an operation, the specification that the diffs
--     are held against: it keeps at most one object under each key, refuses to create one that exists
--     and to update or delete one that does not.
--
-- Of the server, under skipper/skipper/dataseries/storage/:
--   * Skipper/Structure: static_ds_information.py and the ids of uuid.py; sha256 is a parameter.
--   * Skipper/Validate: validate of validate/default/__init__.py, which collects the errors of the
--     checks of validate/default/internal.py: Facts, Dimensions and ExternalId. Contract has the
--     request, the messages and the exceptions. Each check takes the payload that the check before it
--     left, and writes into it also where it finds errors, as the code does with the one dictionary.
--     The lookup of a data point and the conversion of an integer to a float are parameters.
--
-- Also of the server, skipper/skipper/pagination.py is in Skipper/Pagination: the page that is cut out
-- of the elements fetched, the element that the link to the next page names, and the walk along the
-- links. The decoding of the id in a link is a parameter.
--
-- The filters that users write, skipper/skipper/dataseries/storage/dynamic_sql/queries/
-- user_defined_filter.py, are in Skipper/Filter: the walk over the filter there, and in Column the
-- condition on one column. The six functions of the code, one for each kind of column, are one
-- function of the kind. Monad has the dictionaries and sets that the walk writes to.
--
-- Soft deletion, skipper/skipper/core/models/softdelete.py, is in Skipper/SoftDelete: a table is the
-- list of its rows, a queryset the condition of its filters. Once has what one deletion does to each
-- row, First what any number of them do. An instance is a row as it was when it was read.
--
-- Consumer events, skipper/skipper/dataseries/models/event.py with the consumers of
-- models/metamodel/consumer.py, are in Skipper/Events. Attempt is the body of the loop of
-- try_send_events, Request the request that is posted, Drain the loop, Queue the query before it and
-- the table after it, Sanitize, Trust and Kept what is kept of a response. What the outside does is
-- an argument of a call: for each turn of the loop, what the clock says, the agent drawn and the
-- reply of the request.
--
-- Dictionaries are association lists in insertion order (Shared/Dict), as in Python; an assignment
-- to a key that is there keeps its place, and a missing key is key_error. Exceptions are the errors of
-- Shared/Result. A set is walked in an order that the theorems leave open: set_order is any function
-- that keeps the members and drops the repetitions (Shared/Sets). Loops go over lists, so no fuel is
-- needed, but in two places. The walk from page to page of Skipper/Pagination takes a number of
-- requests, and as many as there are elements are enough. read_paginated_all follows the links that a
-- server gives for as long as it gives them; the model takes a bound, beyond which the result is the
-- exception unfinished, and what is proved of the push holds for every bound. The diff functions of
-- engines, endpoints and groups repeat one loop over all definitions, which is diff_all
-- (Client/Diff/All) at their parts.
--
-- Not modelled: the export of definitions (service/fetcher.py), uploads of files, the command
-- line, and the server's parts that only pass on to Django, PostgreSQL and Celery.
pub mod Shared
pub mod Client
pub mod Skipper
