-- ===== src/Lib.antt =====
-- The stake pool: the web application that users and administrators meet, the daemon stakepoold that
-- votes with their tickets, and the voting wallets that both talk to.
--
-- The parts, and how they interact. The daemon (backend/stakepoold) keeps three maps from tickets to
-- multisignature addresses (live, ignored for a low fee, added by an administrator) and the voting
-- settings of the users. At its start it sorts the wallet's tickets into these maps; each block then
-- brings new tickets, spent and missed ones, and winners, for which it votes. The web application pushes
-- the added tickets and the settings to the daemon over gRPC (stakepooldclient,
-- backend/stakepoold/rpc/rpcserver), and sends its own requests to all wallets at once through a manager
-- (controllers/hcclient.go). Both sides derive the users' addresses from the same extended keys. The
-- web application keeps the accounts (models, helpers) that its pages (controllers/main.go, mounted
-- by server.go) sign up, sign in, change and give an address to.
--
-- Files:
--   Prelude        the tests, lists, words, results and hex decoding that the modules share
--   GoMap          Go's maps as association lists, with the laws of look-up
--   Keys           what is called of hcutil's hdkeychain
--   Stakepoold     backend/stakepoold/server.go and rpcclient.go: Context is appContext and the messages of
--                  its channels, Rpc the wallet and the node, Fees evaluateStakePoolTicket and MsgTxFromHex,
--                  FeeAddresses calculateFeeAddresses and deriveChildAddresses, GetTicket getticket,
--                  NewTickets processNewTickets, SpentMissed processSpentMissedTickets, Winning
--                  processWinningTickets and vote, Update updateTicketData and updateUserData, Startup
--                  walletGetTickets, Saved getDataNames, pruneData, loadData and saveData, Userdata the
--                  readers of userdata/userdata.go, Start the use
--                  of both and the refresh of the tickets in runMain, Connect connectNodeRPC, connectWalletRPC
--                  and semver.go
--   Controllers    controllers/main.go: UserAddresses FeeAddressForUserID and TicketAddressForUserID, VoteBits
--                  IsValidVoteBits, choicesForAgendas and CheckAndResetUserVoteBits with the updates of
--                  helpers/auth.go, UpdateAll StakepooldUpdateAll, Admin isAdmin, getClientIP,
--                  AdminTicketsPost and CalcEstimatedTicketExpiry, Address AddressPost and APIAddress, Voting
--                  VotingPost and APIVoting
--   Accounts       the users' accounts: Tables the rows and queries of models/user.go with Login,
--                  EmailChangeComplete and the others of helpers/auth.go, Site what the pages are given,
--                  SignUp SignUpPost and EmailVerify, SignIn SignInPost and Logout, Passwords
--                  PasswordResetPost and PasswordUpdatePost, Settings SettingsPost and EmailUpdate, Routes
--                  the calls of server.go's routes, one after the other
--   Grpc           the service: Server is backend/stakepoold/rpc/rpcserver/server.go with
--                  grpcCommandQueueHandler, Server/Channels the steps of its unbuffered channels, Client is
--                  stakepooldclient/stakepooldclient.go,
--                  Reload what is pushed beside what is read from the database
--   Wallets        controllers/hcclient.go: Poll the loops that the cases of executeInSequence share,
--                  Queries the requests that read, with connected; Import ImportScript; Tickets
--                  StakePoolUserInfo with checkForSyncness and syncTickets, and GetUnspentUserTickets; Cache
--                  TicketsForAddress and getStakeInfo; Lifecycle Start, Stop, the slots and CheckServers;
--                  Scripts walletSvrsSync; Versions checkWalletsVoteVersion
--
-- A function of the source with receiver is a function of the state; a Go error is a value of a
-- result type, and a panic is a third outcome. The goroutines that a handler starts and joins write to
-- separate values, so their order does not count, and a handler is one step. A hash is a number. The
-- libraries that the source calls (the wallet, the node, hcd's stake and txrules, hdkeychain) are records
-- of functions that the definitions take. The 64-bit sums of amounts, the int32 and uint32 conversions
-- and the counters of Start and Stop keep their wrap-around.
--
-- Fuel: the derivation of addresses and the refresh of the tickets at the start run on fuel, one for each
-- round, since the source's loops need not end. One round per address and one more is enough for the
-- first where each child key exists, and the second needs no more rounds than pass until one without a
-- block. All other loops are recursion on a list or on the number of rows that are left.
--
-- Not modelled: the templates and their rendering, the session store, the tokens against forged
-- requests, recaptcha and mail (arguments, where a result of theirs counts), the pages that only show
-- (Tickets, Stats, Status), the API's other answers, the configuration, the set-up of logs,
-- signals and channels, the texts of SQL (a query is a function of the rows), generated code,
-- and the calls that only return constants. What is only logged is left out.
pub mod Prelude
pub mod GoMap
pub mod Keys
pub mod Stakepoold
pub mod Controllers
pub mod Grpc
pub mod Accounts
pub mod Wallets
